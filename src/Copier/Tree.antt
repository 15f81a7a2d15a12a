-- ===== src/Copier/Tree.antt =====
-- From the root directory to the copies: the walk, the buffer and the workers together.
use system_related_in_c.Copier.System.{System}
