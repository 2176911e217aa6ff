-- ===== src/Starttls/Connect/Channel.antt =====
-- starttls/starttls.go: the channel of `GetConnectionState` and the goroutines that share it, as steps
-- in any order. The channel holds one result; the timer sends once, and so does the goroutine of
-- the protocol for each of its results; the main goroutine receives once.
use certigo.Base.{
  ℕ, suc, ◌+◌, ◌*◌, ◌≤◌, List, [], ◌∷◌, ◌≡◌, ◌≢◌, refl, sym, ap, Option, none, some, Option-cases,
  ◌⊎◌, inl, inr, ◌∙◌, Bool, true, false, Bool-cases, str, error, ok, length, arith,
}
use certigo.X509.{RequestInfo}
use certigo.Starttls.Connect.{Timers, ConnectResult, received, finish_connect, finish_attempt}

abbrev timed_out : ConnectResult
timed_out = error (str "timed out")

-- `waits` while the timer has not sent; `unsent` are the results that the other goroutine has to
-- send; `slot` is the buffer of the channel.
pub record Shared : Type 0 where
  pub waits : Bool
  pub unsent : List ConnectResult
  pub slot : Option ConnectResult
  pub got : Option ConnectResult

abbrev pub begin : List ConnectResult → Shared
begin sent = record { waits = true; unsent = sent; slot = none; got = none }

-- A send waits for the buffer to be free.
pub data Step : Shared → Shared → Type 0 where
  expire :
      {s : Shared}
      → s.waits ≡ true
      → s.slot ≡ none
      → Step s (record s { waits = false; slot = some timed_out })
  send :
      {s : Shared} {r : ConnectResult} {rs : List ConnectResult}
      → s.unsent ≡ r ∷ rs
      → s.slot ≡ none
      → Step s (record s { unsent = rs; slot = some r })
  receive :
      {s : Shared} {r : ConnectResult}
      → s.slot ≡ some r
      → s.got ≡ none
      → Step s (record s { slot = none; got = some r })

-- The states after a number of steps.
pub data Reach (sent : List ConnectResult) : ℕ → Shared → Type 0 where
  begun : Reach sent 0 (begin sent)
  later : {n : ℕ} {s t : Shared} → Reach sent n s → Step s t → Reach sent (suc n) t

-- What may come out of the channel first.
abbrev IsFirst : List ConnectResult → ConnectResult → Type 0
IsFirst sent r = (r ≡ timed_out) ⊎ ((rs : List ConnectResult) × (sent ≡ r ∷ rs))

abbrev slot_weight : Option ConnectResult → ℕ
slot_weight none = 0
slot_weight (some r) = 1

abbrev wait_weight : Bool → ℕ
wait_weight true = 2
wait_weight false = 0

-- How many steps are left at most.
abbrev weight : Shared → ℕ
weight s = wait_weight s.waits + 2 * length s.unsent + slot_weight s.slot

record Inv (sent : List ConnectResult) (s : Shared) : Type 0 where
  untouched : s.got ≡ none → s.slot ≡ none → (s.waits ≡ true) × (s.unsent ≡ sent)
  slot_first : (r : ConnectResult) → s.got ≡ none → s.slot ≡ some r → IsFirst sent r
  got_first : (r : ConnectResult) → s.got ≡ some r → IsFirst sent r

begin-Inv : (sent : List ConnectResult) → Inv sent (begin sent)
begin-Inv sent = record {
  untouched = λ h k. (refl, refl);
  slot_first = λ r h k. cc;
  got_first = λ r h. cc;
}

cons_head : {a b : ConnectResult} {rs : List ConnectResult} → some a ≡ some b → a ∷ rs ≡ b ∷ rs
cons_head h = cc

Step-Inv : {sent : List ConnectResult} {s t : Shared} → Step s t → Inv sent s → Inv sent t
Step-Inv (expire hw hs) inv = record {
  untouched = λ h k. cc;
  slot_first = λ r h k. inl (cc);
  got_first = inv.got_first;
}
Step-Inv (send {r = r'} {rs = rs} hu hs) inv = record {
  untouched = λ h k. cc;
  slot_first =
      λ r h k. let (hw, same) = inv.untouched h hs in inr (rs, sym same ∙ hu ∙ cons_head k);
  got_first = inv.got_first;
}
Step-Inv (receive hs hg) inv = record {
  untouched = λ h k. cc;
  slot_first = λ r h k. cc;
  got_first = λ r h. inv.slot_first r hg (hs ∙ h);
}

Reach-Inv : {sent : List ConnectResult} {n : ℕ} {s : Shared} → Reach sent n s → Inv sent s
Reach-Inv {sent} begun = begin-Inv sent
Reach-Inv (later reach step) = Step-Inv step (Reach-Inv reach)

abbrev timers_of : Bool → Timers
timers_of late = record { handshake_late = late; result_late = false }

abbrev late_timers : Timers
late_timers = record { handshake_late = false; result_late = true }

nil-cons : {a : ConnectResult} {rs : List ConnectResult} → [] ≢ a ∷ rs
nil-cons h = cc

first-received :
    (sent : List ConnectResult) (r : ConnectResult)
    → IsFirst sent r
    → (timers : Timers) × (r ≡ received timers sent)
first-received [] r (inl h) = (late_timers, h)
first-received (a ∷ rs) r (inl h) = (late_timers, h)
first-received [] r (inr (rs, h)) = absurd (nil-cons h)
first-received (a ∷ bs) r (inr (rs, h)) = (timers_of false, cc)

-- Whatever goroutine runs first, and however they interleave: what the main goroutine has received
-- makes the result that the model gives for one of its settings of the timers.
pub Reach-finish_attempt :
    (sent : List ConnectResult) {n : ℕ} {s : Shared} {r : ConnectResult}
    → Reach sent n s
    → s.got ≡ some r
    → (timers : Timers) × ((cri : Option (Option RequestInfo))
        → finish_connect r cri ≡ finish_attempt timers (ok sent) cri)
Reach-finish_attempt sent {r = r} reach h =
    let (timers, same) = first-received sent r ((Reach-Inv reach).got_first r h) in
    (timers, λ cri. ap (λ a. finish_connect a cri) same)

-- Each setting is one of the interleavings.
received-Reach :
    (timers : Timers) (sent : List ConnectResult)
    → (n : ℕ) × (s : Shared) × Reach sent n s × (s.got ≡ some (received timers sent))
received-Reach timers [] = (2, _, later (later begun (expire refl refl)) (receive refl refl), refl)
received-Reach timers (r ∷ rs) = elim (Bool-cases timers.result_late) [
  | inl late ↦ (2, _, later (later begun (expire refl refl)) (receive refl refl), ap some (rw late))
  | inr soon ↦ (2, _, later (later begun (send refl refl)) (receive refl refl), ap some (rw soon))
]

Step-weight : {s t : Shared} → Step s t → suc (weight t) ≤ weight s
Step-weight (expire hw hs) = omega (arith, ap wait_weight hw, ap slot_weight hs)
Step-weight (send hu hs) =
    omega (arith, ap (λ (l : List ConnectResult). length l) hu, ap slot_weight hs)
Step-weight (receive hs hg) = omega (arith, ap slot_weight hs)

Reach-weight :
    {sent : List ConnectResult} {n : ℕ} {s : Shared}
    → Reach sent n s
    → n + weight s ≤ weight (begin sent)
Reach-weight begun = omega arith
Reach-weight (later reach step) = omega (arith, Reach-weight reach, Step-weight step)

-- The goroutines take at most two steps for each result and two for the timer, and where none of
-- them can take another the main goroutine has its result: it never waits forever.
pub Reach-receives :
    (sent : List ConnectResult) {n : ℕ} {s : Shared}
    → Reach sent n s
    → (n ≤ 2 + 2 * length sent) × (((t : Shared) → Step s t → ⊥) → s.got ≢ none)
Reach-receives sent {s = s} reach = (
  omega (arith, Reach-weight reach),
  λ stuck none_yet. elim (Option-cases s.slot) [
    | inr (r, h) ↦ stuck _ (receive h none_yet)
    | inl h ↦ stuck _ (expire ((Reach-Inv reach).untouched none_yet h).0 h)
  ],
)
