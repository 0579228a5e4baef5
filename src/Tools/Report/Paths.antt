-- ===== src/Tools/Report/Paths.antt =====
-- The remarks on paths that let too little through: the second loop of `sancheck`.
