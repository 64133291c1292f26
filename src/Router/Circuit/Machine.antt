-- ===== src/Router/Circuit/Machine.antt =====
-- packages/router/src/circuit.ts: the machine that the transitions implement. A circuit is closed with
-- a count of failures, open until a time, or it waits for the result of one probe.
use ai_development_os.Prelude.{
  ℕ, ◌+◌, ◌≤◌, ◌<◌, ◌≡◌, Bool, true, false, not, ◌||◌, Option, none, some, leb, string_eq, arith,
}
use ai_development_os.Domain.Guards.{Timestamp}
use ai_development_os.Router.Circuit.Time.{text_leb, is_cooling}
use ai_development_os.Router.Circuit.State.{
  CircuitBreakerPhase, closed, open_phase, half_open, CircuitEventKind, success, retryable_failure,
  terminal_provider_failure, admit_probe, CircuitBreakerState,
}
use ai_development_os.Router.Circuit.Transition.{CircuitConfiguration, is_open, is_half_open}

-- The abstract circuit.
pub data Circuit : Type 0 where
  passing : ℕ → Circuit
  blocked : ℕ → Option Timestamp → Circuit
  probing : ℕ → Option Timestamp → Circuit

abbrev pub view : CircuitBreakerPhase → ℕ → Option Timestamp → Circuit
view closed n until = passing n
view open_phase n until = blocked n until
view half_open n until = probing n until

abbrev pub circuit_of : CircuitBreakerState → Circuit
circuit_of s = view s.unsigned.phase s.unsigned.consecutive_failures s.unsigned.cool_down_until

abbrev pub is_failure : CircuitEventKind → Bool
is_failure success = false
is_failure retryable_failure = true
is_failure terminal_provider_failure = true
is_failure admit_probe = false

-- One move of the abstract circuit at a time, under a threshold and a cool-down.
pub data Move (c : CircuitConfiguration) (at : Timestamp)
    : CircuitEventKind → Circuit → Circuit → Type 0 where
  succeed : (n : ℕ) → Move c at success (passing n) (passing 0)
  recover : (n : ℕ) (until : Option Timestamp) → Move c at success (probing n until) (passing 0)
  count :
      (kind : CircuitEventKind) (n : ℕ)
      → is_failure kind ≡ true
      → n + 1 < c.failure_threshold
      → Move c at kind (passing n) (passing (n + 1))
  break :
      (kind : CircuitEventKind) (n : ℕ)
      → is_failure kind ≡ true
      → c.failure_threshold ≤ n + 1
      → Move c at kind (passing n) (blocked (n + 1) (some (at + c.cool_down_ms)))
  break_again :
      (kind : CircuitEventKind) (n : ℕ) (until : Option Timestamp)
      → is_failure kind ≡ true
      → Move c at kind (probing n until) (blocked (n + 1) (some (at + c.cool_down_ms)))
  probe :
      (n : ℕ) (until : Timestamp)
      → text_leb until at ≡ true
      → Move c at admit_probe (blocked n (some until)) (probing n (some until))

pub admit_move :
    (c : CircuitConfiguration) (phase : CircuitBreakerPhase) (n : ℕ) (until : Option Timestamp)
    (at : Timestamp)
    → (not (is_open phase) || is_cooling until at) ≡ false
    → Move c at admit_probe (view phase n until) (view half_open n until)
admit_move c closed n until at h = absurd (cc h)
admit_move c half_open n until at h = absurd (cc h)
admit_move c open_phase n none at h = absurd (cc h)
admit_move c open_phase n (some until) at h = probe n until (ground (arith, h))

pub success_move :
    (c : CircuitConfiguration) (phase : CircuitBreakerPhase) (n : ℕ) (until : Option Timestamp)
    (at : Timestamp)
    → is_open phase ≡ false
    → Move c at success (view phase n until) (passing 0)
success_move c closed n until at h = succeed n
success_move c half_open n until at h = recover n until
success_move c open_phase n until at h = absurd (cc h)

pub trip_move :
    (c : CircuitConfiguration) (phase : CircuitBreakerPhase) (n : ℕ) (until : Option Timestamp)
    (at : Timestamp) (kind : CircuitEventKind)
    → is_open phase ≡ false
    → is_failure kind ≡ true
    → (is_half_open phase || leb c.failure_threshold (n + 1)) ≡ true
    → Move c at kind (view phase n until) (blocked (n + 1) (some (at + c.cool_down_ms)))
trip_move c closed n until at kind h failed full = break kind n failed (ground (arith, full))
trip_move c half_open n until at kind h failed full = break_again kind n until failed
trip_move c open_phase n until at kind h failed full = absurd (cc h)

pub count_move :
    (c : CircuitConfiguration) (phase : CircuitBreakerPhase) (n : ℕ) (until : Option Timestamp)
    (at : Timestamp) (kind : CircuitEventKind)
    → is_open phase ≡ false
    → is_failure kind ≡ true
    → (is_half_open phase || leb c.failure_threshold (n + 1)) ≡ false
    → Move c at kind (view phase n until) (passing (n + 1))
count_move c closed n until at kind h failed few = count kind n failed (ground (arith, few))
count_move c half_open n until at kind h failed few = absurd (cc few)
count_move c open_phase n until at kind h failed few = absurd (cc h)
