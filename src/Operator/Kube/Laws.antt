-- ===== src/Operator/Kube/Laws.antt =====
-- On the record of writes of the cluster parameter.
use kubecp.Common.{List, [], ◌∷◌, ◌++◌, All, All-append}
use kubecp.Common.Exec.{Result, ok, err, Exec, convert, Keeps}
use kubecp.Operator.Data.{Error}
use kubecp.Operator.Kube.{
  Kube, Cluster, Write, Fault, failed, panicked, reading, writing, find, found_or,
}

-- Every write on record has `Q`.
abbrev pub Wrote : {State : Type 0} → (Write → Type 0) → Cluster State → Type 0
Wrote Q w = All Q w.writes

module _ (k : Kube) (Q : Write → Type 0) {A : Type 0} where
  converted :
      (s : Result Error A × k.State) (l : List Write)
      → All Q l
      → Wrote Q (convert failed (s.0, record { state = s.1; writes = l })).1
  converted (ok a, s) l h = h
  converted (err e, s) l h = h

  pub reading-Keeps : (f : k.State → Result Error A × k.State) → Keeps (Wrote Q) (reading k f)
  unfolding reading
  reading-Keeps f = record { at = λ w h. converted (f w.state) w.writes h }

  pub writing-Keeps :
      (x : Write) (f : k.State → Result Error A × k.State) → Q x → Keeps (Wrote Q) (writing k x f)
  unfolding writing
  writing-Keeps x f q = record {
    at = λ w h.
        converted (f w.state) (w.writes ++ x ∷ []) (All-append Q w.writes (x ∷ []) h (q, tt));
  }

module _ {W A : Type 0} where
  found_or-Keeps : (P : W → Type 0) (s : Result Fault A × W) → P s.1 → P (found_or s).1
  found_or-Keeps P (ok a, w) h = h
  found_or-Keeps P (err (failed e), w) h = h
  found_or-Keeps P (err panicked, w) h = h

  pub find-Keeps : {P : W → Type 0} (m : Exec Fault W A) → Keeps P m → Keeps P (find m)
  unfolding find
  find-Keeps {P} m km = record { at = λ w h. found_or-Keeps P (m w) (km.at w h) }
