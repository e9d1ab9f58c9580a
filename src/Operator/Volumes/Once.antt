-- ===== src/Operator/Volumes/Once.antt =====
-- On the calls of uservolume.go that create and delete a volume.
use kubecp.Common.{ℕ, String, ◌≡◌, ◌⊎◌, inl, inr, Option, none, some, [], ◌∷◌}
use kubecp.Common.Exec.{Keeps-pure, Keeps-on_error}
use kubecp.Common.Leads.{Leads, Leads-weaken, Leads-if, Leads-on_error, Leads-bind}
use kubecp.Operator.Data.{VolumeClaim, volume_claim}
use kubecp.Operator.Kube.{Kube, Cluster, create_write, delete_write}
use kubecp.Operator.Kube.Laws.{find-Keeps}
use kubecp.Operator.Kube.Order.{HasWritten, reading-HasWritten, writing-HasWritten}
use kubecp.Operator.Volumes.{
  Environment, is_host_path_mode, user_volume, create_missing, ensure_user_volume, delete_found,
  delete_user_volume,
}

module _ (k : Kube) (env : Environment) (namespace username : String) where
  module _ (gb : ℕ) where
    -- Nothing was written, or the one claim was created.
    abbrev pub CreatedOnce : Cluster k.State → Type 0
    CreatedOnce w =
        (w.writes ≡ [])
        ⊎ (w.writes ≡ create_write (volume_claim (user_volume env namespace username gb)) ∷ [])

    create_missing-Once :
        (old : Option VolumeClaim)
        → Leads (HasWritten []) CreatedOnce (create_missing k env namespace username gb old)
    create_missing-Once (some old) = Leads-weaken _ (λ w h. inl h) (Keeps-pure tt)
    create_missing-Once none =
        Leads-on_error _ _ (record { to = λ w h. inr ((writing-HasWritten k [] _ _).to w h) })

    -- `EnsureUserVolume` creates at most one object, the claim of this user and this size,
    -- and writes nothing else.
    pub ensure_user_volume-Once :
        (w : Cluster k.State)
        → w.writes ≡ []
        → CreatedOnce (ensure_user_volume k env namespace username gb w).1
    unfolding ensure_user_volume
    ensure_user_volume-Once w =
        let once =
          Leads-if (is_host_path_mode env) (Leads-weaken _ (λ w h. inl h) (Keeps-pure tt)) (
            Leads-bind _ _
              (Leads-weaken _ (λ w h. h)
                (Keeps-on_error _ _ (find-Keeps _ (reading-HasWritten k [] _))))
              create_missing-Once (λ w h. inl h)) in
        once.to w

  -- Nothing was written, or one claim was deleted.
  abbrev DeletedOnce : Cluster k.State → Type 0
  DeletedOnce w =
      (w.writes ≡ []) ⊎ ((old : VolumeClaim) × (w.writes ≡ delete_write (volume_claim old) ∷ []))

  delete_found-Once :
      (old : Option VolumeClaim)
      → Leads (HasWritten []) DeletedOnce (delete_found k env username old)
  delete_found-Once none = Leads-weaken _ (λ w h. inl h) (Keeps-pure tt)
  delete_found-Once (some old) =
      Leads-on_error _ _ (record { to = λ w h. inr (old, (writing-HasWritten k [] _ _).to w h) })

  -- `DeleteUserVolume` deletes at most one object, a claim, and writes nothing else.
  delete_user_volume-Once :
      (w : Cluster k.State)
      → w.writes ≡ []
      → DeletedOnce (delete_user_volume k env namespace username w).1
  unfolding delete_user_volume
  delete_user_volume-Once w =
      let once = Leads-if (is_host_path_mode env) (Leads-weaken _ (λ w h. inl h) (Keeps-pure tt)) (
        Leads-bind _ _
          (Leads-weaken _ (λ w h. h)
            (Keeps-on_error _ _ (find-Keeps _ (reading-HasWritten k [] _))))
          delete_found-Once (λ w h. inl h)) in
      once.to w
