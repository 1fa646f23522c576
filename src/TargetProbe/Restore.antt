-- ===== src/TargetProbe/Restore.antt =====
-- native/dwrt-host/dwrt_target_probe.cpp: the teams that a filter changes are put back after it.
use dwrt.Prelude.{
  ℕ, ◌+◌, ◌≡◌, ◌≢◌, inl, inr, refl, Bool, false, not, ◌&&◌, ◌==◌, if◌then◌else◌, Memory, arith,
  store_byte, Bool-cases,
}
use dwrt.TargetProbe.State.{ProbeWorld}
use dwrt.TargetProbe.Entities.{Process, team_field, safe_write_team}
use dwrt.TargetProbe.Neutralize.{}
use dwrt.TargetProbe.Spoof.{
  IsBytes, IsSpoofed, enter_filter-Spoofed, neutralize_both-Bytes, neutralize_both_off,
}
use dwrt.TargetProbe.Filter.{
  TargetFilterScope, empty_filter_scope, neutralize_both, begin_target_filter,
  finish_source_restore, restore_source, finish_target_restore, restore_target,
  finish_target_filter,
}

-- The memory after the restoration of one side.
restore_source-memory :
    (p : Process) (scope : TargetFilterScope) (result : Bool) (w : ProbeWorld) (a : ℕ)
    → (restore_source p scope result w).memory a ≡ (
        if not (scope.source_spoof_applied == 0)
          && (not (scope.source == 0) && p.can_write (team_field scope.source))
        then store_byte w.memory (team_field scope.source) scope.original_source_team a
        else w.memory a)
unfolding restore_source finish_source_restore safe_write_team
restore_source-memory p scope result w a = ground arith

restore_target-memory :
    (p : Process) (scope : TargetFilterScope) (result : Bool) (w : ProbeWorld) (a : ℕ)
    → (restore_target p scope result w).memory a ≡ (
        if not (scope.target_spoof_applied == 0)
          && (not (scope.target == 0) && p.can_write (team_field scope.target))
        then store_byte w.memory (team_field scope.target) scope.original_target_team a
        else w.memory a)
unfolding restore_target finish_target_restore safe_write_team
restore_target-memory p scope result w a = ground arith

-- What a filter leaves of a memory, at the two team fields and elsewhere.
pub record IsRestored (m m2 m3 : Memory) (source target : ℕ) : Type 0 where
  pub source_team : m3 (team_field source) ≡ m (team_field source)
  pub target_team : m3 (team_field target) ≡ m (team_field target)
  pub elsewhere : (a : ℕ) → a ≢ team_field source → a ≢ team_field target → m3 a ≡ m2 a

restore_both :
    (p : Process) (m : Memory) (v w : ProbeWorld) (scope : TargetFilterScope) (result : Bool)
    (source target : ℕ)
    → IsBytes m
    → IsSpoofed p m source target v scope
    → w.memory (team_field source) ≡ v.memory (team_field source)
    → w.memory (team_field target) ≡ v.memory (team_field target)
    → IsRestored m w.memory
        (restore_target p scope result (restore_source p scope result w)).memory
        source
        target
unfolding team_field
restore_both p m v w scope result source target bytes s hs ht = record {
  source_team = ground (
    arith,
    restore_target-memory p scope result (restore_source p scope result w) (source + 0x33c),
    restore_source-memory p scope result w (source + 0x33c),
    bytes (source + 0x33c),
  );
  target_team = ground (
    arith,
    restore_target-memory p scope result (restore_source p scope result w) (target + 0x33c),
    restore_source-memory p scope result w (target + 0x33c),
    bytes (target + 0x33c),
  );
  elsewhere = λ a x y. ground (
    arith,
    restore_target-memory p scope result (restore_source p scope result w) a,
    restore_source-memory p scope result w a,
    x,
    y,
  );
}

-- The whole of `finish_target_filter`, for a scope of a memory.
finish_target_filter-Restored :
    (p : Process) (m : Memory) (w w2 : ProbeWorld) (scope : TargetFilterScope) (source target : ℕ)
    (result : Bool)
    → IsBytes m
    → IsSpoofed p m source target w scope
    → w2.memory (team_field source) ≡ w.memory (team_field source)
    → w2.memory (team_field target) ≡ w.memory (team_field target)
    → IsRestored m w2.memory (finish_target_filter p w2 scope result).0.memory source target
unfolding finish_target_filter
finish_target_filter-Restored p m w w2 scope source target result bytes s hs ht =
    restore_both p m w _ scope _ source target bytes s hs ht

empty-Restored :
    (p : Process) (w w2 : ProbeWorld) (source target : ℕ) (result : Bool)
    → w2.memory (team_field source) ≡ w.memory (team_field source)
    → w2.memory (team_field target) ≡ w.memory (team_field target)
    → IsRestored w.memory w2.memory
        (finish_target_filter p w2 empty_filter_scope result).0.memory
        source
        target
unfolding finish_target_filter restore_source restore_target
empty-Restored p w w2 source target result hs ht = record {
  source_team = hs;
  target_team = ht;
  elsewhere = λ a x y. refl;
}

-- Around a filter of the game: whatever the filter does to the memory, but that it leaves the two team
-- fields alone, after `finish_target_filter` the source and the target have the teams that they had
-- when `begin_target_filter` had neutralised them, and the rest of the memory is as the filter left it.
pub finish-begin_teams :
    (p : Process) (w w2 : ProbeWorld) (source target : ℕ) (result : Bool)
    → IsBytes w.memory
    → w2.memory (team_field source)
      ≡ (begin_target_filter p w source target false).0.memory (team_field source)
    → w2.memory (team_field target)
      ≡ (begin_target_filter p w source target false).0.memory (team_field target)
    → IsRestored
        (neutralize_both p w source target).memory
        w2.memory
        (finish_target_filter p w2 (begin_target_filter p w source target false).1 result).0.memory
        source
        target
unfolding begin_target_filter
finish-begin_teams p w w2 source target result bytes =
    elim (Bool-cases (w.probe.settings.enabled == 0)) [
      | inl off ↦
          rw (off, neutralize_both_off p w source target off)
            (empty-Restored p w w2 source target result)
      | inr on ↦ rw on (
          finish_target_filter-Restored p _ _ w2 _ source target result
            (neutralize_both-Bytes p w source target bytes)
            (enter_filter-Spoofed p (neutralize_both p w source target) source target
              (neutralize_both-Bytes p w source target bytes)))
    ]
