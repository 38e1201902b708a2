-- ===== src/Diagnostics/Updater/Publishing.antt =====
-- What an updater publishes, and when: rosrust_diagnostics/src/updater.rs.
use rosrust.Prelude.{
  ◌≡◌, refl, ◌∙◌, Bool, true, false, some, List, [], ◌∷◌, if◌then◌else◌, codes, All,
}
use rosrust.Prelude.Int.{ℤ, pos}
use rosrust.Time.Seconds.{Floats}
use rosrust.Diagnostics.{Level, DiagnosticStatus}
use rosrust.Diagnostics.Composite.{Task}
use rosrust.Diagnostics.Updater.{
  Updater, Readings, CheckTracker, add_task, publish, check_diagnostic_period, should_update,
  refresh_last_time, make_broadcast_status_for, force_update_with_extra, force_update,
  update_with_extra, update,
}

module _ (f : Floats) (number : Level → ℤ) (takes : List DiagnosticStatus → Bool) where
  abbrev pub add_each : List Task → Updater (f.F) → Updater (f.F)
  add_each [] u = u
  add_each (task ∷ tasks) u = add_each tasks (add_task f number takes task u).1

  -- The array that advertises a task.
  abbrev pub start_of : Updater (f.F) → Task → List DiagnosticStatus
  start_of u task =
      make_broadcast_status_for f number takes u task Level.ok (codes "Node starting up") ∷ []

  abbrev pub update_each : List (Readings (f.F)) → Updater (f.F) → Updater (f.F)
  update_each [] u = u
  update_each (r ∷ rs) u = update_each rs (update f number takes r u).1

  -- The ROS parameter is this period, and no more than it has passed since this time.
  abbrev pub Early : f.F → f.F → Readings (f.F) → Type 0
  Early last period r = (r.period ≡ some period) × (f.lt (f.plus last period) r.compare ≡ false)

  abbrev checked : Bool → f.F → f.F → CheckTracker (f.F) → CheckTracker (f.F)
  checked c now period t =
      if c
      then t
      else record t { last_check_time_seconds = now; diagnostic_period_seconds = period }

  check_if :
      (c : Bool) (now period : f.F) (t : CheckTracker (f.F))
      → t.diagnostic_period_seconds ≡ period
      → ((checked c now period t).last_update ≡ t.last_update)
        × ((checked c now period t).diagnostic_period_seconds ≡ period)
  check_if true now period t h = (refl, h)
  check_if false now period t h = (refl, refl)

  check-period :
      (now period : f.F) (t : CheckTracker (f.F))
      → t.diagnostic_period_seconds ≡ period
      → ((check_diagnostic_period f number takes now (some period) t).last_update ≡ t.last_update)
        × ((check_diagnostic_period f number takes now (some period) t).diagnostic_period_seconds
            ≡ period)
  unfolding check_diagnostic_period
  check-period now period t h =
      check_if (f.lt now (f.plus t.last_check_time_seconds (f.decimal (pos 25) 2))) now period t h

  update_quiet :
      (r : Readings (f.F)) (u : Updater (f.F))
      → (should_update f number takes r u).0 ≡ false
      → (update f number takes r u).1 ≡ (should_update f number takes r u).1
  unfolding update update_with_extra
  update_quiet r u h = rw h refl

  -- What an early update keeps.
  record Waits (last period : f.F) (u u' : Updater (f.F)) : Type 0 where
    same : u'.published ≡ u.published
    last_update : u'.check_tracker.last_update ≡ last
    diagnostic_period : u'.check_tracker.diagnostic_period_seconds ≡ period

  should_update-Early :
      (last period : f.F) (r : Readings (f.F)) (u : Updater (f.F))
      → Early last period r
      → u.check_tracker.last_update ≡ last
      → u.check_tracker.diagnostic_period_seconds ≡ period
      → ((should_update f number takes r u).0 ≡ false)
        × Waits last period u (should_update f number takes r u).1
  unfolding should_update
  should_update-Early last period r u early before same =
      let kept = check-period r.check period u.check_tracker same in
      (
        rw (early.0, kept.0 ∙ before, kept.1) early.1,
        rw (early.0)
            (record { same = refl; last_update = kept.0 ∙ before; diagnostic_period = kept.1 }),
      )

  update-Early :
      (last period : f.F) (r : Readings (f.F)) (u : Updater (f.F))
      → Early last period r
      → u.check_tracker.last_update ≡ last
      → u.check_tracker.diagnostic_period_seconds ≡ period
      → Waits last period u (update f number takes r u).1
  update-Early last period r u early before same =
      let quiet = should_update-Early last period r u early before same in
      rw (update_quiet r u quiet.0) quiet.1

  update_each-Early :
      (last period : f.F) (rs : List (Readings (f.F))) (u : Updater (f.F))
      → All (Early last period) rs
      → u.check_tracker.last_update ≡ last
      → u.check_tracker.diagnostic_period_seconds ≡ period
      → (update_each rs u).published ≡ u.published
  update_each-Early last period [] u early before same = refl
  update_each-Early last period (r ∷ rs) u early before same =
      let waits = update-Early last period r u early.0 before same in
      update_each-Early last period rs (update f number takes r u).1 early.1 waits.last_update
        waits.diagnostic_period
      ∙ waits.same

  -- After a forced update, no update publishes anything as long as the clock that it compares is not
  -- past the time of the forced one and the period, where the period is the value of the ROS parameter
  -- and the one in use.
  pub force-Early :
      (now period : f.F) (rs : List (Readings (f.F))) (u : Updater (f.F))
      → u.check_tracker.diagnostic_period_seconds ≡ period
      → All (Early now period) rs
      → (update_each rs (force_update f number takes now u).1).published
        ≡ (force_update f number takes now u).1.published
  unfolding force_update force_update_with_extra publish refresh_last_time
  force-Early now period rs u same early =
      update_each-Early now period rs (force_update f number takes now u).1 early refl same
