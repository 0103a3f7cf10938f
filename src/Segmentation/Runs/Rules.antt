-- ===== src/Segmentation/Runs/Rules.antt =====
-- `run` of web/services/segmentation.py: a run by the rules, from its request to the committed tables.
