-- ===== src/Operator/Sftp/Laws.antt =====
-- On the synchronisation of the SFTP deployment in sftp_volumes.go.
use text.Mathlib.TextPositions.{starts_with-append}
use kubecp.Common.{
  String, ◌<>◌, str_eq, ◌≡◌, refl, ap, Bool, false, not, some, List, [], ◌∷◌, ◌++◌, map, keep,
  keep-append, keep-idempotent, keep-map, append_nil, inl, inr, Bool-cases, eq_refl,
}
use kubecp.Common.Exec.{ok, pure}
use kubecp.Operator.Data.{Labels, Volume, VolumeMount, Container, Deployment}
use kubecp.Operator.Kube.{Kube, Cluster}
use kubecp.Operator.Volumes.{Environment}
use kubecp.Operator.Users.{join}
use kubecp.Operator.Sftp.{
  is_user_volume, volume_of, mount_of, with_volumes, with_mounts, with_container, set_label,
  with_users, sync_found, sftp_users_key,
}

-- What is kept and appended once is found again.
again :
    {A B : Type 0} (p : A → Bool) (f : B → A)
    → ((b : B) → p (f b) ≡ false)
    → (xs : List A) (bs : List B)
    → keep p (keep p xs ++ map f bs) ++ map f bs ≡ keep p xs ++ map f bs
again p f h xs bs = rw (
  keep-append p (keep p xs) (map f bs),
  keep-idempotent p xs,
  keep-map p f h bs,
  append_nil (keep p xs),
)

prefixed : (u : String) → not (is_user_volume ("uv-" <> u)) ≡ false
prefixed u = ap not (starts_with-append "uv-" u)

with_volumes_again :
    (env : Environment) (users : List String) (vs : List Volume)
    → with_volumes env users (with_volumes env users vs) ≡ with_volumes env users vs
unfolding with_volumes
with_volumes_again env users vs = again _ (volume_of env) prefixed vs users

with_mounts_again :
    (users : List String) (ms : List VolumeMount)
    → with_mounts users (with_mounts users ms) ≡ with_mounts users ms
unfolding with_mounts
with_mounts_again users ms = again _ mount_of prefixed ms users

with_container_again :
    (users : List String) (cs : List Container)
    → with_container users (with_container users cs) ≡ with_container users cs
unfolding with_container
with_container_again users [] = refl
with_container_again users (c ∷ cs) = elim (Bool-cases (str_eq c.name "sftp")) [
  | inl e ↦ rw (e, with_container, e, with_mounts_again users c.mounts)
  | inr e ↦ rw (e, with_container, e, with_container_again users cs)
]

set_label_again :
    (key value : String) (l : Labels)
    → set_label key value (set_label key value l) ≡ set_label key value l
set_label_again key value l = rw (eq_refl key, keep-idempotent (λ x. not (str_eq x.0 key)) l)

-- Adding the users' volumes to a deployment that has them changes nothing.
with_users_idempotent :
    (env : Environment) (users : List String) (d : Deployment)
    → with_users env users (with_users env users d) ≡ with_users env users d
unfolding with_users
with_users_idempotent env users d = rw (
  with_volumes_again env users d.template.volumes,
  with_container_again users d.template.containers,
  set_label_again sftp_users_key (join users) d.template.annotations,
)

-- A deployment that was synchronised for these users is not written again.
pub sync_found_settles :
    (k : Kube) (env : Environment) (users : List String) (d : Deployment) (w : Cluster k.State)
    → sync_found k env users (some (with_users env users d)) w ≡ (ok tt, w)
unfolding sync_found with_users pure
sync_found_settles k env users d w = rw (eq_refl (join users))
