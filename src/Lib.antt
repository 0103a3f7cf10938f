-- ===== src/Lib.antt =====
-- The decisions of a retail segmentation system.
--
-- The program keeps customers, their sales and their segments. A segmentation run scores every customer, by
-- quintiles of recency, frequency and spend or by k-means clusters, gives each a label of a fixed vocabulary, and
-- records the run with one open history row for each customer, all in one unit of work. Around it stand the
-- loading of sales, the recommendation of products, which reads the open label, and the throttle of the login page.
-- Campaigns target the customers of one label; an experiment of a campaign deals them into arms and records who was
-- reached. Two runs are compared customer by customer, by label.
--
-- Parts, files and code (functions keep their names):
--   Segmentation  web/services/segmentation.py, web/db/segments.py, web/db/transactions.py
--     Domain, Window, Checks, Counts  the values, parse_window, _validated and summarise
--     Store      the tables, and what each SQL statement of a run does to them
--     Session    a connection with its committed and its working state, and atomic
--     Scoring    the statement _SCORE_AND_MATCH, query by query, and rfm_rules_adapter
--     Pipeline   _record and run_method; Clusters  the k-means adapter, whose fit is Kmeans and whose labels are Labels
--     History, Runs  what a run leaves in the tables, with Rules on the run by the rules
--   Kmeans  web/services/kmeans.py: Normalise, Assign (nearest), Refill, Lloyd (the loop) and Fit
--   Labels  web/services/cluster_labels.py: Index (label_index), Ranks (the order and the labelling) and Order
--   Recommendations  services/recommendations/app/rule.py, and Ancestry on the category tree, Answers on the results
--   Ingestion  web/services/ingestion.py, web/db/sales.py and decrement_stock of web/db/inventory.py, with Balanced on
--     the totals, Sellable on the checks and Stock on what a sale takes
--   Experiments  web/services/experiments.py, web/services/campaigns.py and their statements in web/db
--     Lab        the tables; Campaigns  create_campaign, update_draft, transition; Setup  create and update_experiment
--     Parsing, Forms, Validation  web/parsing.py, validate_experiment and validate_campaign; Blank, Accepted, Submitted
--       the texts of spaces, what an accepted form satisfies, and the form with the creation that follows it
--     Assignment  split, _plan and assign; Exposure  record_exposure and record_group_exposures
--     Chains, Writes, Shapes  what a chain of checks has found and what each operation has written when it returns
--     Steps      any order of the operations, as a step relation
--     Evolution, Frame, Frozen, Controls, Sound  campaigns, assigned experiments and exposures along such an order
--     Dealing, Arms, Rows, Agreement  the loop of split, the arms and the rows of a plan, assign and plan_assignment
--   Migration  web/services/segment_migration.py over the tables of Segmentation
--     Dicts, Classify, Matrix  dicts, _classify up to compute_migration, and build_migration_matrix
--     Cells, Totals, Reconcile, Earlier, Order, Total, Vocabulary, Everyone  the cells, the totals, the whole comparison
--   Throttle  web/services/login_throttle.py over OrderedDict, the dict of the buckets: Failures, Ordered and Windowed on
--     what it counts, Bounds on the table
--   Floats  the arithmetic of doubles; Prelude  lists, tests, results and sorting; Tests  runs at concrete inputs
--
-- State: an action takes a connection and returns a result with the connection after it, so a write that precedes
-- an exception is there until atomic undoes it. A unique index that refuses a row is an error of insert_assignments.
-- The operations of Experiments are each one unit of work that returned or wrote nothing; the lock of an
-- experiment's row makes one step of each. A campaign is edited and moved with no lock: there the tables that were
-- read and those that are written are two arguments.
--
-- Parameters: a float is its bit pattern and its arithmetic a record of operations (FloatOps). The clustering
-- theorems ask of it that a squared distance is above -1, for points of a class that means do not leave
-- (IsMeasured). The seeded generator is the sequence of its draws, the silhouette and the write of a run's
-- notification are arguments, and so are what the server refuses of a loaded row's values and references and the
-- seeded shuffle of an assignment, of which only that it permutes is asked.
-- Identifiers are numbers, money is in cents, a moment is in seconds, in the throttle in nanoseconds.
--
-- Loops: the while loop of the seeding makes k - 1 rounds and the loop of the fit at most max_iterations, as in
-- the code. The chain of a category is followed with as many rounds as the category table has entries, which
-- are the keys that it can pass through. Every other loop is over a list.
--
-- Not modelled: a commit that raises, pages and routes, SQL that only lists rows, the elapsed time of a run,
-- logging, password hashing, uploads, the figures of experiments, the sentences that explain a migration, reports and
-- the other services. Of the history's constraints the two unique indexes are there. Of the texts that int(), strip()
-- and upper() read those in ASCII are modelled, and of numbers those of at most 4300 digits, above which int() raises.
pub mod Prelude
pub mod Floats
pub mod Kmeans
pub mod Labels
pub mod Segmentation
pub mod Throttle
pub mod Recommendations
pub mod Ingestion
pub mod Experiments
pub mod Migration
pub mod Tests
