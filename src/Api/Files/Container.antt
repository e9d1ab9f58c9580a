-- ===== src/Api/Files/Container.antt =====
-- The container that the file manager names, against the pods that the operator creates.
use kubecp.Operator.Data.{Website}
