-- ===== src/RtpStats/Quiet.antt =====
-- The operations of pkg/buffer/rtpstats.go on its snapshots, and the largest jitter of each.
use go_ortc.Base.{
  ℕ, zero, suc, ◌≡◌, refl, ◌∙◌, Bool, Option, none, some, List, [], ◌∷◌, if_both, ◌==◌, ltb,
}
use go_ortc.Base.Words.{sub16}
use go_ortc.RtpStats.Types.{RtpStats, Float64, Header, SnInfo, Snapshot, new_snapshot}
use go_ortc.RtpStats.Ring.{
  set_sn_info, clear_rounds, clear_sn_infos, write_at, update_gap_histogram,
  get_sn_info_out_of_order_ptr,
}
use go_ortc.RtpStats.Jitter.{update_jitter}
use go_ortc.RtpStats.Update.{put_snapshot, each_snapshot, fill_snapshots, in_order, account}
use go_ortc.RtpStats.Counters.{put_snapshots}
use go_ortc.RtpStats.Snapshots.{find_snapshot, or_start}

module _ {J : Type 0} ⦃f : Float64 J⦄ where
  -- Every snapshot's maximum of the jitter is zero.
  pub data Quiet : List (ℕ × Snapshot J) → Type 0 where
    no_snapshot : Quiet []
    next_quiet :
        {id : ℕ} {s : Snapshot J} {ss : List (ℕ × Snapshot J)}
        → s.max_jitter ≡ f.of_uint32 0
        → Quiet ss
        → Quiet ((id, s) ∷ ss)

  pub put_snapshot-Quiet :
      (id : ℕ) (s : Snapshot J) (ss : List (ℕ × Snapshot J))
      → s.max_jitter ≡ f.of_uint32 0
      → Quiet ss
      → Quiet (put_snapshot id s ss)
  unfolding put_snapshot
  put_snapshot-Quiet id s [] e no_snapshot = next_quiet e no_snapshot
  put_snapshot-Quiet id s ((j, t) ∷ ss) e (next_quiet d q) =
      if_both Quiet (j == id) (λ _. next_quiet e q)
        (λ _. next_quiet d (put_snapshot-Quiet id s ss e q))

  pub put_snapshots-Quiet :
      (more ss : List (ℕ × Snapshot J)) → Quiet more → Quiet ss → Quiet (put_snapshots more ss)
  unfolding put_snapshots
  put_snapshots-Quiet [] ss no_snapshot q = q
  put_snapshots-Quiet ((id, s) ∷ more) ss (next_quiet e p) q =
      put_snapshots-Quiet more (put_snapshot id s ss) p (put_snapshot-Quiet id s ss e q)

  pub fill_snapshots-Quiet :
      (count id : ℕ) (s : Snapshot J) (ss : List (ℕ × Snapshot J))
      → s.max_jitter ≡ f.of_uint32 0
      → Quiet ss
      → Quiet (fill_snapshots count id s ss)
  unfolding fill_snapshots
  fill_snapshots-Quiet zero id s ss e q = q
  fill_snapshots-Quiet (suc count) id s ss e q =
      fill_snapshots-Quiet count _ s (put_snapshot id s ss) e (put_snapshot-Quiet id s ss e q)

  pub each_snapshot-Quiet :
      (g : Snapshot J → Snapshot J) (ss : List (ℕ × Snapshot J))
      → ((s : Snapshot J) → (g s).max_jitter ≡ s.max_jitter)
      → Quiet ss
      → Quiet (each_snapshot g ss)
  unfolding each_snapshot
  each_snapshot-Quiet g [] same no_snapshot = no_snapshot
  each_snapshot-Quiet g ((j, t) ∷ ss) same (next_quiet e q) =
      next_quiet (same t ∙ e) (each_snapshot-Quiet g ss same q)

  pub find_snapshot-Quiet :
      (id : ℕ) (ss : List (ℕ × Snapshot J)) (r : RtpStats J)
      → Quiet ss
      → (or_start r (find_snapshot id ss)).max_jitter ≡ f.of_uint32 0
  unfolding find_snapshot new_snapshot
  find_snapshot-Quiet id [] r no_snapshot = refl
  find_snapshot-Quiet id ((j, t) ∷ ss) r (next_quiet e q) =
      if_both (λ (o : Option (Snapshot J)). (or_start r o).max_jitter ≡ f.of_uint32 0) (j == id)
        (λ _. e) (λ _. find_snapshot-Quiet id ss r q)

  abbrev pub IsQuiet : RtpStats J → Type 0
  IsQuiet r = Quiet r.snapshots

  write_at-snapshots :
      (r : RtpStats J) (o : Option ℕ) (info : SnInfo) → (write_at r o info).snapshots ≡ r.snapshots
  write_at-snapshots r none info = refl
  write_at-snapshots r (some p) info = refl

  pub set_sn_info-snapshots :
      (r : RtpStats J) (sn : ℕ) (info : SnInfo) → (set_sn_info r sn info).snapshots ≡ r.snapshots
  unfolding set_sn_info
  set_sn_info-snapshots r sn info =
      if_both (λ (t : RtpStats J). t.snapshots ≡ r.snapshots) (ltb 32768 (sub16 sn r.highest_sn))
        (λ _. write_at-snapshots r (get_sn_info_out_of_order_ptr r sn) info) (λ _. refl)

  clear_rounds-snapshots : (n : ℕ) (r : RtpStats J) → (clear_rounds n r).snapshots ≡ r.snapshots
  unfolding clear_rounds
  clear_rounds-snapshots zero r = refl
  clear_rounds-snapshots (suc n) r = clear_rounds-snapshots n _

  update_gap_histogram-snapshots :
      (r : RtpStats J) (gap : ℕ) → (update_gap_histogram r gap).snapshots ≡ r.snapshots
  unfolding update_gap_histogram
  update_gap_histogram-snapshots r gap =
      if_both (λ (t : RtpStats J). t.snapshots ≡ r.snapshots) (ltb gap 2) (λ _. refl) (λ _. refl)

  pub account-snapshots :
      (r : RtpStats J) (h : Header) (payload padding time : ℕ)
      → (account r h payload padding time).snapshots ≡ r.snapshots
  unfolding account update_jitter
  account-snapshots r h payload padding time =
      if_both (λ (t : RtpStats J). t.snapshots ≡ r.snapshots) (payload == 0) (λ _. refl)
        (λ _.
          if_both (λ (t : RtpStats J). t.snapshots ≡ r.snapshots) (r.last_transit == 0) (λ _. refl)
            (λ _. refl))

  pub in_order-snapshots :
      (r : RtpStats J) (h : Header) (first : Bool) (diff payload padding time : ℕ)
      → (in_order r h first diff payload padding time).snapshots ≡ r.snapshots
  unfolding in_order clear_sn_infos
  in_order-snapshots r h first diff payload padding time =
      set_sn_info-snapshots _ h.sequence_number _
      ∙ clear_rounds-snapshots _ (update_gap_histogram r diff)
      ∙ update_gap_histogram-snapshots r diff
