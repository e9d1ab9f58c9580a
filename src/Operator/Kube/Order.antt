-- ===== src/Operator/Kube/Order.antt =====
-- Steps whose writes are known one by one.
use kubecp.Common.{◌≡◌, ap, List, [], ◌∷◌, ◌++◌}
use kubecp.Common.Exec.{Result, ok, err, convert, Keeps}
use kubecp.Common.Leads.{Leads}
use kubecp.Operator.Data.{Error}
use kubecp.Operator.Kube.{Kube, Cluster, Write, failed, reading, writing}

-- Exactly these writes are on record, the first in front.
abbrev pub HasWritten : {State : Type 0} → List Write → Cluster State → Type 0
HasWritten l w = w.writes ≡ l

module _ (k : Kube) {A : Type 0} where
  read :
      (s : Result Error A × k.State) (l l' : List Write)
      → l ≡ l'
      → HasWritten l' (convert failed (s.0, record { state = s.1; writes = l })).1
  read (ok a, s) l l' h = h
  read (err e, s) l l' h = h

  pub reading-HasWritten :
      (l : List Write) (f : k.State → Result Error A × k.State) → Keeps (HasWritten l) (reading k f)
  unfolding reading
  reading-HasWritten l f = record { at = λ w h. read (f w.state) w.writes l h }

  pub writing-HasWritten :
      (l : List Write) (x : Write) (f : k.State → Result Error A × k.State)
      → Leads (HasWritten l) (HasWritten (l ++ x ∷ [])) (writing k x f)
  unfolding writing
  writing-HasWritten l x f = record {
    to = λ w h. read (f w.state) (w.writes ++ x ∷ []) (l ++ x ∷ []) (ap (λ m. m ++ x ∷ []) h);
  }
