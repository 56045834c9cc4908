-- ===== src/Sideband/Progress.antt =====
-- Every progress message is sent once, in the order in which it was pushed.
use gitedge.Shared.{
  ℕ, zero, suc, ◌≤◌, ◌≡◌, refl, sym, ◌∙◌, ap, String, List, [], ◌∷◌, ◌++◌, length, length-append,
  drop, Bool-cases, inl, inr, arith,
}
use gitedge.Sideband.{
  SidebandProgressMux, new_mux, push, should_send_progress, pending, all_sent, send_pending,
  send_remaining,
}

-- What is done with a multiplexer: the two times of `sendPending` are its readings of the clock.
pub data Event : Type 0 where
  pushes : String → Event
  sends_pending : ℕ → ℕ → Event
  sends_remaining : Event

unfoldable pub react : Event → SidebandProgressMux → SidebandProgressMux × List String
react (pushes msg) mux = (push msg mux, [])
react (sends_pending now after) mux = send_pending now after mux
react sends_remaining mux = send_remaining mux

-- The messages that a sequence of events pushes, and those that it emits.
unfoldable pub pushed : List Event → List String
pushed [] = []
pushed (pushes msg ∷ es) = msg ∷ pushed es
pushed (sends_pending now after ∷ es) = pushed es
pushed (sends_remaining ∷ es) = pushed es

unfoldable pub emitted : List Event → SidebandProgressMux → List String
emitted [] mux = []
emitted (e ∷ es) mux = let (next, out) = react e mux in out ++ emitted es next

unfoldable pub after : List Event → SidebandProgressMux → SidebandProgressMux
after [] mux = mux
after (e ∷ es) mux = after es (react e mux).0

append-append {ℓ} : {A : Type ℓ} (xs ys zs : List A) → (xs ++ ys) ++ zs ≡ xs ++ (ys ++ zs)
append-append [] ys zs = refl
append-append (x ∷ xs) ys zs = ap (◌∷◌ x) (append-append xs ys zs)

append-nil {ℓ} : {A : Type ℓ} (xs : List A) → xs ++ [] ≡ xs
append-nil [] = refl
append-nil (x ∷ xs) = ap (◌∷◌ x) (append-nil xs)

drop-append {ℓ} :
    {A : Type ℓ} (n : ℕ) (xs ys : List A) → n ≤ length xs → drop n (xs ++ ys) ≡ drop n xs ++ ys
drop-append zero xs ys h = refl
drop-append (suc n) [] ys h = absurd (omega (arith, h))
drop-append (suc n) (x ∷ xs) ys h = drop-append n xs ys (omega arith)

drop-all {ℓ} : {A : Type ℓ} (n : ℕ) (xs : List A) → length xs ≤ n → drop n xs ≡ []
drop-all zero [] h = refl
drop-all zero (x ∷ xs) h = absurd (omega (arith, h))
drop-all (suc n) [] h = refl
drop-all (suc n) (x ∷ xs) h = drop-all n xs (omega arith)

-- The index does not run past the messages.
abbrev pub IsInRange : SidebandProgressMux → Type 0
IsInRange mux = mux.progress_idx ≤ length mux.progress_messages

sent_lem :
    (mux : SidebandProgressMux)
    → IsInRange mux
    → IsInRange (all_sent mux) × (drop (all_sent mux).progress_idx mux.progress_messages ≡ [])
sent_lem mux h =
    (ground arith, drop-all (all_sent mux).progress_idx mux.progress_messages (ground arith))

react_lem :
    (e : Event) (mux : SidebandProgressMux)
    → IsInRange mux
    → IsInRange (react e mux).0
      × ((react e mux).1 ++ pending (react e mux).0 ≡ pending mux ++ pushed (e ∷ []))
unfolding react pushed pending push send_pending send_remaining
react_lem (pushes msg) mux h = (
  omega (arith, length-append mux.progress_messages (msg ∷ [])),
  drop-append mux.progress_idx mux.progress_messages (msg ∷ []) h,
)
react_lem (sends_pending now later) mux h = elim (Bool-cases (should_send_progress now mux)) [
  | inl y ↦
      let (range, none_left) = sent_lem mux h in
      rw y (range, ap (drop mux.progress_idx mux.progress_messages ++◌) none_left)
  | inr n ↦ rw n (h, sym (append-nil (drop mux.progress_idx mux.progress_messages)))
]
react_lem sends_remaining mux h =
    let (range, none_left) = sent_lem mux h in
    (range, ap (drop mux.progress_idx mux.progress_messages ++◌) none_left)

pushed-cons : (e : Event) (es : List Event) → pushed (e ∷ es) ≡ pushed (e ∷ []) ++ pushed es
unfolding pushed
pushed-cons (pushes msg) es = refl
pushed-cons (sends_pending now later) es = refl
pushed-cons sends_remaining es = refl

whole_run :
    (es : List Event) (mux : SidebandProgressMux)
    → IsInRange mux
    → emitted es mux ++ pending (after es mux) ≡ pending mux ++ pushed es
unfolding emitted after
whole_run [] mux h = unfold pushed in sym (append-nil (pending mux))
whole_run (e ∷ es) mux h =
    let next = (react e mux).0 in
    let out = (react e mux).1 in
    let (range, same) = react_lem e mux h in
    append-append out (emitted es next) (pending (after es next))
    ∙ ap (out ++◌) (whole_run es next range)
    ∙ sym (append-append out (pending next) (pushed es))
    ∙ ap (◌++ pushed es) same
    ∙ append-append (pending mux) (pushed (e ∷ [])) (pushed es)
    ∙ ap (pending mux ++◌) (sym (pushed-cons e es))

-- Over any sequence of pushes and sends on a new multiplexer, at any times, the messages that were
-- emitted, with those that are still pending behind them, are the messages that were pushed, each
-- once and in their order.
pub emitted-pending :
    (interval : ℕ) (es : List Event)
    → emitted es (new_mux interval) ++ pending (after es (new_mux interval)) ≡ pushed es
unfolding new_mux
emitted-pending interval es = whole_run es (new_mux interval) (omega arith) ∙ unfold pending in refl
