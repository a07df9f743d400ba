-- ===== src/Workflows/Graph/Walk.antt =====
-- What the search of `check_cycles` finds out: it ends, what it finishes is closed under
-- dependencies, and it finishes an order that is closed.
use astra_ai_agent.Prelude.{
  ℕ, zero, suc, ◌+◌, ◌<◌, ◌≡◌, refl, Bool, Bool-cases, true, false, inl, inr, List, [], ◌∷◌, ◌++◌,
  length, length-append, arith,
}
use astra_ai_agent.Prelude.Text.{Text, text_eq_refl, text_mem}
use astra_ai_agent.Workflows.Graph.{Visit, finished, cycle, out_of_fuel, each, leave, visit}
use astra_ai_agent.Workflows.Graph.Sets.{
  Within, Distinct, Within-step, Within-refl, Within-trans, Within-mem, Distinct-snoc,
  Distinct-length,
}
use astra_ai_agent.Workflows.Graph.Order.{Closed}

-- The search came to an end of its own.
unfoldable pub is_over : Visit → Bool
is_over (finished b) = true
is_over (cycle p) = true
is_over out_of_fuel = false

-- The search found no cycle.
unfoldable pub is_finished : Visit → Bool
is_finished (finished b) = true
is_finished (cycle p) = false
is_finished out_of_fuel = false

-- A loop of visits has what each visit has, and an end without visits.
pub each-holds :
    (p : Visit → Bool) (f : List Text → Text → Visit) (known : List Text)
    → ((b : List Text) → p (finished b) ≡ true)
    → ((black : List Text) (k : Text) → text_mem k known ≡ true → p (f black k) ≡ true)
    → (black ks : List Text) → Within ks known
    → p (each f black ks) ≡ true
unfolding each
each-holds p f known ends h black [] within = ends black
each-holds p f known ends h black (k ∷ ks) within =
    go (f black k) (h black k within.0) (λ b. each-holds p f known ends h b ks within.1)
  where
    go :
        (o : Visit)
        → p o ≡ true
        → ((b : List Text) → p (each f b ks) ≡ true)
        → p (elim o [ finished b ↦ each f b ks | cycle q ↦ cycle q | out_of_fuel ↦ out_of_fuel ])
          ≡ true
    go (finished b) e rest = rest b
    go (cycle q) e rest = e
    go out_of_fuel e rest = e

module _ (known : List Text) (deps : Text → List Text) where
  -- Every dependency is known.
  abbrev pub Bounded : Type 0
  Bounded = (k : Text) → Within (deps k) known

  -- What a visit that finishes leaves behind.
  abbrev pub Visited : List Text → List Text → Visit → Type 0
  Visited black ks (finished b) = Closed known deps b × Within black b × Within ks b
  Visited black ks (cycle p) = Unit
  Visited black ks out_of_fuel = Unit

  Visited-step :
      (black b ks : List Text) (k : Text) (o : Visit)
      → Visited black (k ∷ []) (finished b)
      → Visited b ks o
      → Visited black (k ∷ ks) o
  Visited-step black b ks k (finished b') (c, w, m) (c', w', m') =
      (c', Within-trans black b b' w w', (Within-mem b b' k w' m.0, m'))
  Visited-step black b ks k (cycle p) v v' = tt
  Visited-step black b ks k out_of_fuel v v' = tt

  each_step :
      (f : List Text → Text → Visit) (black ks : List Text) (k : Text) (o : Visit)
      → f black k ≡ o
      → Visited black (k ∷ []) o
      → ((b : List Text) → Closed known deps b → Visited b ks (each f b ks))
      → Visited black (k ∷ ks) (each f black (k ∷ ks))
  unfolding each
  each_step f black ks k (finished b) e v rest =
      rw (each, e) (Visited-step black b ks k (each f b ks) v (rest b v.0))
  each_step f black ks k (cycle p) e v rest = rw (each, e) tt
  each_step f black ks k out_of_fuel e v rest = rw (each, e) tt

  each-Visited :
      (f : List Text → Text → Visit)
      → ((black : List Text) (k : Text)
          → Closed known deps black
          → text_mem k known ≡ true
          → Visited black (k ∷ []) (f black k))
      → (black ks : List Text) → Closed known deps black
      → Within ks known
      → Visited black ks (each f black ks)
  unfolding each
  each-Visited f h black [] closed within = (closed, Within-refl black, tt)
  each-Visited f h black (k ∷ ks) closed within =
      each_step f black ks k (f black k) refl (h black k closed within.0)
        (λ b c. each-Visited f h b ks c within.1)

  leave-Visited :
      (sid : Text) (black : List Text) (o : Visit)
      → text_mem sid known ≡ true
      → Visited black (deps sid) o
      → Visited black (sid ∷ []) (leave sid o)
  unfolding leave text_mem
  leave-Visited sid black (finished b) m (c, w, d) =
      ((m, d, c), Within-step black b sid w, (ground (arith, text_eq_refl sid), tt))
  leave-Visited sid black (cycle p) m v = tt
  leave-Visited sid black out_of_fuel m v = tt

  pub visit-Visited :
      Bounded
      → (n : ℕ) (path black : List Text) (sid : Text) → Closed known deps black
      → text_mem sid known ≡ true
      → Visited black (sid ∷ []) (visit deps n path black sid)
  unfolding visit
  visit-Visited bounded zero path black sid closed m = tt
  visit-Visited bounded (suc n) path black sid closed m = elim (Bool-cases (text_mem sid path)) [
    | inl e ↦ rw (visit, e) tt
    | inr e ↦ elim (Bool-cases (text_mem sid black)) [
      | inl b ↦ rw (visit, e, b) (closed, Within-refl black, (b, tt))
      | inr b ↦
          rw (visit, e, b)
            (leave-Visited sid black (each (visit deps n (path ++ sid ∷ [])) black (deps sid)) m (
              each-Visited (visit deps n (path ++ sid ∷ []))
                (λ bl k c mk. visit-Visited bounded n (path ++ sid ∷ []) bl k c mk) black (deps sid)
                closed (bounded sid)))
    ]
  ]

  pub search-Closed :
      Bounded
      → (n : ℕ) (ks : List Text) → Within ks known
      → Visited [] ks (each (visit deps n []) [] ks)
  search-Closed bounded n ks within =
      each-Visited (visit deps n []) (visit-Visited bounded n []) [] ks tt within

  leave-is_over : (sid : Text) (o : Visit) → is_over (leave sid o) ≡ is_over o
  unfolding leave is_over
  leave-is_over sid (finished b) = refl
  leave-is_over sid (cycle p) = refl
  leave-is_over sid out_of_fuel = refl

  Within-path :
      (path : List Text) (sid : Text)
      → Within path known
      → text_mem sid known ≡ true
      → Within (path ++ sid ∷ []) known
  Within-path [] sid w m = (m, tt)
  Within-path (p ∷ path) sid w m = (w.0, Within-path path sid w.1 m)

  -- With more fuel than known texts are off the path, the search ends.
  pub visit-is_over :
      Bounded
      → (n : ℕ) (path black : List Text) (sid : Text) → Distinct path
      → Within path known
      → length known < n + length path
      → text_mem sid known ≡ true
      → is_over (visit deps n path black sid) ≡ true
  unfolding visit is_over
  visit-is_over bounded zero path black sid d w h m =
      absurd (omega (arith, h, Distinct-length path known d w))
  visit-is_over bounded (suc n) path black sid d w h m = elim (Bool-cases (text_mem sid path)) [
    | inl e ↦ rw (visit, e) refl
    | inr e ↦ elim (Bool-cases (text_mem sid black)) [
      | inl b ↦ rw (visit, e, b) refl
      | inr b ↦
          let longer = path ++ sid ∷ [] in
          rw (visit, e, b, leave-is_over)
            (each-holds is_over (visit deps n longer) known (λ b'. refl)
              (λ bl k mk.
                visit-is_over bounded n longer bl k (Distinct-snoc path sid d e)
                  (Within-path path sid w m) (omega (arith, h, length-append path (sid ∷ []))) mk)
              black (deps sid) (bounded sid))
    ]
  ]
