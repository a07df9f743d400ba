-- ===== src/Ai/ContextBudget/Fitting.antt =====
-- What `fit_messages` keeps.
use mathlib.Core.Path.{subst}
use mathlib.Core.List.{append-nil}
use astra_ai_agent.Prelude.{
  eq_iff, sym, ℕ, zero, suc, ◌≤◌, ◌<◌, ◌≡◌, ◌≢◌, ◌⊎◌, inl, inr, refl, ap, ◌∙◌, true, false,
  Bool-cases, List, [], ◌∷◌, ◌++◌, str_eq, length, drop, ◌==◌, arith,
}
use astra_ai_agent.Ai.ContextBudget.{
  Message, span_system, split_last, fits, drop_oldest, budget_of, fit_messages,
}

-- The middle lost its `n` oldest messages, no more than needed.
abbrev pub Cut : ℕ → List Message → List Message → List Message → List Message → Type 0
Cut budget pre mid post out =
    (n : ℕ) × (n ≤ length mid)
    × (out ≡ pre ++ (drop n mid ++ post))
    × ((fits budget out ≡ true) ⊎ (n ≡ length mid))
    × ((k : ℕ) → k < n → fits budget (pre ++ (drop k mid ++ post)) ≡ false)

drop_oldest-Cut :
    (budget : ℕ) (pre mid post : List Message)
    → Cut budget pre mid post (drop_oldest budget pre mid post)
unfolding drop_oldest
drop_oldest-Cut budget pre [] post = (0, omega arith, refl, inr refl, λ k h. absurd (omega arith))
drop_oldest-Cut budget pre (m ∷ ms) post =
    elim (Bool-cases (fits budget (pre ++ ((m ∷ ms) ++ post)))) [
      | inl f ↦ (0, omega arith, rw f refl, inl (rw f f), λ k h. absurd (omega arith))
      | inr f ↦
          let (n, le, out, enough, needed) = drop_oldest-Cut budget pre ms post in
          (
            suc n,
            omega arith,
            rw f out,
            rw f (elim enough [ inl e ↦ inl e | inr e ↦ inr (ap suc e) ]),
            below n f needed,
          )
    ]
  where
    below :
        (n : ℕ)
        → fits budget (pre ++ ((m ∷ ms) ++ post)) ≡ false
        → ((k : ℕ) → k < n → fits budget (pre ++ (drop k ms ++ post)) ≡ false)
        → (k : ℕ) → k < suc n
        → fits budget (pre ++ (drop k (m ∷ ms) ++ post)) ≡ false
    below n f needed zero h = f
    below n f needed (suc k) h = needed k (omega arith)

span-append : (ms : List Message) → (span_system ms).0 ++ (span_system ms).1 ≡ ms
unfolding span_system
span-append [] = refl
span-append (m ∷ ms) = elim (Bool-cases (str_eq m.role "system")) [
  | inl e ↦ rw e (ap (λ q. m ∷ q) (span-append ms))
  | inr e ↦ rw e refl
]

last-append : (ms : List Message) → (split_last ms).0 ++ (split_last ms).1 ≡ ms
unfolding split_last
last-append [] = refl
last-append (m ∷ []) = refl
last-append (m ∷ n ∷ ms) = ap (λ q. m ∷ q) (last-append (n ∷ ms))

-- The parts of a conversation: its leading system messages, its middle, its last message.
abbrev pub system_part : List Message → List Message
system_part ms = (span_system ms).0

abbrev pub middle_part : List Message → List Message
middle_part ms = (split_last (span_system ms).1).0

abbrev pub last_part : List Message → List Message
last_part ms = (split_last (span_system ms).1).1

-- Every message has the role system.
abbrev pub AreSystem : List Message → Type 0
AreSystem [] = Unit
AreSystem (m ∷ ms) = (m.role ≡ "system") × AreSystem ms

span-AreSystem : (ms : List Message) → AreSystem (system_part ms)
unfolding span_system
span-AreSystem [] = tt
span-AreSystem (m ∷ ms) = elim (Bool-cases (str_eq m.role "system")) [
  | inl e ↦ rw (e, AreSystem) ((eq_iff m.role "system").0 e, span-AreSystem ms)
  | inr e ↦ rw (e, AreSystem) tt
]

-- The list does not begin with a system message.
abbrev pub NotLed : List Message → Type 0
NotLed [] = Unit
NotLed (m ∷ ms) = m.role ≢ "system"

span-NotLed : (ms : List Message) → NotLed (span_system ms).1
unfolding span_system
span-NotLed [] = tt
span-NotLed (m ∷ ms) = elim (Bool-cases (str_eq m.role "system")) [
  | inl e ↦ rw e (span-NotLed ms)
  | inr e ↦ rw (e, NotLed) (λ same. ground (arith, e, (eq_iff m.role "system").1 same))
]

one_last : (ms : List Message) → (length (split_last ms).1 ≡ 1) ⊎ (ms ≡ [])
unfolding split_last
one_last [] = inr refl
one_last (m ∷ []) = inl refl
one_last (m ∷ n ∷ ms) = elim (one_last (n ∷ ms)) [
  | inl e ↦ inl e
  | inr e ↦ absurd (omega (arith, ap length e))
]

-- What the three parts are: they make up the conversation, the first holds the system
-- messages that lead it, all of them, and the last is one message, unless the whole conversation is system messages.
abbrev pub AreParts : List Message → Type 0
AreParts ms =
    (system_part ms ++ (middle_part ms ++ last_part ms) ≡ ms)
    × AreSystem (system_part ms)
    × NotLed (middle_part ms ++ last_part ms)
    × ((length (last_part ms) ≡ 1) ⊎ AreSystem ms)

parts-AreParts : (ms : List Message) → AreParts ms
parts-AreParts ms = (
  ap (λ q. system_part ms ++ q) (last-append (span_system ms).1) ∙ span-append ms,
  span-AreSystem ms,
  subst NotLed (sym (last-append (span_system ms).1)) (span-NotLed ms),
  elim (one_last (span_system ms).1) [
    | inl e ↦ inl e
    | inr e ↦
        let whole : system_part ms ≡ ms =
          sym (append-nil (system_part ms))
          ∙ ap (λ q. system_part ms ++ q) (sym e)
          ∙ span-append ms in
        inr (subst AreSystem whole (span-AreSystem ms))
  ],
)

-- A conversation is its leading system messages, all of them, a middle that does not begin with one,
-- and one last message, unless all of it is
-- system messages. `fit_messages` returns it unchanged when there is no window or it fits the
-- budget; else it keeps the leading system messages and the last message and drops the oldest
-- messages between them, until the rest fits or none is left, and no more of them.
pub fit_messages_lem :
    (messages : List Message) (window reserve : ℕ)
    → AreParts messages
      × (((fit_messages messages window reserve ≡ messages)
            × ((window ≡ 0) ⊎ (fits (budget_of window reserve) messages ≡ true)))
          ⊎ ((fits (budget_of window reserve) messages ≡ false)
              × Cut
                  (budget_of window reserve)
                  (system_part messages)
                  (middle_part messages)
                  (last_part messages)
                  (fit_messages messages window reserve)))
unfolding fit_messages
fit_messages_lem messages window reserve = (
  parts-AreParts messages,
  elim (Bool-cases (window == 0)) [
    | inl z ↦ inl (rw z refl, inl (ground arith))
    | inr z ↦ elim (Bool-cases (fits (budget_of window reserve) messages)) [
      | inl f ↦ inl (rw (z, f) refl, inr f)
      | inr f ↦ inr (
        f,
        rw (z, f)
            (drop_oldest-Cut (budget_of window reserve) (system_part messages)
              (middle_part messages) (last_part messages)),
      )
    ]
  ],
)
