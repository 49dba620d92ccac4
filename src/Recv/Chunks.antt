-- ===== src/Recv/Chunks.antt =====
-- How the bytes are split into reads does not matter.
use pqproxy.Base.{
  ℕ, zero, suc, ◌+◌, ◌*◌, ◌^◌, ◌≤◌, ◌<◌, ◌≡◌, refl, sym, ap, ap₂, subst, ◌∙◌, Bool, false, if_cases,
  if_both, if_true, if_false, not, ◌||◌, [], ◌∷◌, ◌++◌, Option, none, some, Str, ltb, ◌==◌,
  if◌then◌else◌, get_or, length, length-append, length-drop, take, drop, arith,
}
use pqproxy.Recv.{
  PipelineApi, msg_length, Front, partial, malformed, message, front, Ending, failed, waits,
  completes, Scan, Step, stops, continues, delivered, refused, fed, be_filter_append, on_front,
  scan_loop,
}

get_or-append : (a b : Str) (i : ℕ) → i < length a → get_or (a ++ b) i 0 ≡ get_or a i 0
get_or-append [] b i h = absurd (omega arith)
get_or-append (x ∷ a) b zero h = refl
get_or-append (x ∷ a) b (suc i) h = get_or-append a b i (omega arith)

take-append : (n : ℕ) (a b : Str) → n ≤ length a → take n (a ++ b) ≡ take n a
take-append zero a b h = refl
take-append (suc n) [] b h = absurd (omega arith)
take-append (suc n) (x ∷ a) b h = ap (◌∷◌ x) (take-append n a b (omega arith))

drop-append : (n : ℕ) (a b : Str) → n ≤ length a → drop n (a ++ b) ≡ drop n a ++ b
drop-append zero a b h = refl
drop-append (suc n) [] b h = absurd (omega arith)
drop-append (suc n) (x ∷ a) b h = drop-append n a b (omega arith)

msg_length-append : (a b : Str) → 5 ≤ length a → msg_length (a ++ b) ≡ msg_length a
msg_length-append a b h =
    ap₂ (λ x y. x + y)
      (ap₂ (λ x y. x + y)
        (ap₂ (λ x y. x * 2 ^ 24 + y * 2 ^ 16) (get_or-append a b 1 (omega arith))
          (get_or-append a b 2 (omega arith)))
        (ap (λ x. x * 2 ^ 8) (get_or-append a b 3 (omega arith))))
      (get_or-append a b 4 (omega arith))

-- A front that is decided, and not short of bytes.
abbrev pub Decided : Front → Str → Str → Type 0
Decided partial a b = Unit
Decided malformed a b = front (a ++ b) ≡ malformed
Decided (message m rest) a b = (front (a ++ b) ≡ message m (rest ++ b)) × (length rest < length a)

-- Bytes that come later do not change what stands at the front.
pub front-Decided : (a b : Str) → Decided (front a) a b
unfolding front
front-Decided a b =
    let P : Front → Type 0 = λ f. Decided f a b in
    if_cases P (ltb (length a) 5) (λ e. tt)
      λ e.
        let five : 5 ≤ length a = ground (arith, e) in
        let same = msg_length-append a b five in
        let long : ltb (length (a ++ b)) 5 ≡ false = ground (arith, length-append a b) in
        if_cases P (ltb (msg_length a) 4)
          (λ m. if_false _ long ∙ if_true _ (ap (λ n. ltb n 4) same ∙ m))
          λ m.
            if_cases P (ltb (length a) (1 + msg_length a)) (λ s. tt)
              λ s.
                let n = 1 + msg_length a in
                let le : n ≤ length a = ground (arith, s) in
                let enough : ltb (length (a ++ b)) (1 + msg_length (a ++ b)) ≡ false =
                  ground (arith, le, same, length-append a b) in
                (
                  if_false _ long
                      ∙ if_false _ (ap (λ k. ltb k 4) same ∙ m)
                      ∙ if_false _ enough
                      ∙ ap (λ k. message (take (1 + k) (a ++ b)) (drop (1 + k) (a ++ b))) same
                      ∙ ap₂ message (take-append n a b le) (drop-append n a b le),
                  omega (arith, length-drop n a, five),
                )

abbrev pub Finished : Ending → Type 0
Finished failed = Unit
Finished waits = ⊥
Finished completes = Unit

module _ {S : Type 0} (api : PipelineApi S) (skip : Bool) (out_cap : ℕ) where
  -- The step on a whole message passes on what follows the message.
  abbrev pub Passes : Step S → Str → Str → Step S → Type 0
  Passes (continues r st out) rest b s = (r ≡ rest) × (s ≡ continues (rest ++ b) st out)
  Passes (stops r) rest b s = Finished r.ending × (s ≡ stops (record r { rest = r.rest ++ b }))

  delivered-Passes :
      (rest b : Str) (st : S) (out : Str)
      → Passes
          (delivered api skip out_cap rest st out)
          rest
          b
          (delivered api skip out_cap (rest ++ b) st out)
  unfolding delivered
  delivered-Passes rest b st out =
      if_both (λ s t. Passes s rest b t) (api.complete st) (λ e. (tt, refl)) (λ e. (refl, refl))

  pub be_filter_append-Passes :
      (msg rest b : Str) (st : S) (out : Str)
      → Passes
          (be_filter_append api skip out_cap msg rest st out)
          rest
          b
          (be_filter_append api skip out_cap msg (rest ++ b) st out)
  unfolding be_filter_append fed
  be_filter_append-Passes msg rest b st out = peeked (api.peek msg)
    where
      fed-Passes :
          (type : ℕ) (r : Bool × S)
          → Passes
              (fed api skip out_cap msg type rest r out)
              rest
              b
              (fed api skip out_cap msg type (rest ++ b) r out)
      fed-Passes type (ok, st') =
          if_both (λ s t. Passes s rest b t) (not ok) (λ e. (tt, refl))
            λ e.
              if_both (λ s t. Passes s rest b t) (api.filtered type skip)
                (λ f. delivered-Passes rest b st' out)
                λ f.
                  if_both (λ s t. Passes s rest b t) (ltb out_cap (length out + length msg))
                    (λ g. (tt, refl)) λ g. delivered-Passes rest b st' (out ++ msg)

      peeked :
          (o : Option (ℕ × ℕ))
          → Passes
              (elim o [
                | none ↦ refused rest st out
                | some (type, total) ↦
                    if ltb (length msg) 5 || not (total == length msg)
                    then refused rest st out
                    else fed api skip out_cap msg type rest (api.feed st msg) out
              ])
              rest
              b
              (elim o [
                | none ↦ refused (rest ++ b) st out
                | some (type, total) ↦
                    if ltb (length msg) 5 || not (total == length msg)
                    then refused (rest ++ b) st out
                    else fed api skip out_cap msg type (rest ++ b) (api.feed st msg) out
              ])
      peeked none = (tt, refl)
      peeked (some (type, total)) =
          if_both (λ s t. Passes s rest b t) (ltb (length msg) 5 || not (total == length msg))
            (λ e. (tt, refl)) λ e. fed-Passes type (api.feed st msg)

  fuel_step :
      (n m : ℕ) (a : Str) (f : Front)
      → Decided f a []
      → (st : S) (out : Str)
      → ((r : Str) (st' : S) (out' : Str)
          → length r < length a
          → scan_loop api skip out_cap n r st' out' ≡ scan_loop api skip out_cap m r st' out')
      → ◌≡◌ {A = Scan S}
          (elim (on_front api skip out_cap f a st out) [
            | stops r ↦ r
            | continues rest st' out' ↦ scan_loop api skip out_cap n rest st' out'
          ])
          (elim (on_front api skip out_cap f a st out) [
            | stops r ↦ r
            | continues rest st' out' ↦ scan_loop api skip out_cap m rest st' out'
          ])
  unfolding on_front
  fuel_step n m a partial d st out next = refl
  fuel_step n m a malformed d st out next = refl
  fuel_step n m a (message msg rest) (d, shorter) st out next =
      go (be_filter_append api skip out_cap msg rest st out)
        (be_filter_append-Passes msg rest [] st out)
    where
      go :
          (s : Step S)
          → Passes s rest [] (be_filter_append api skip out_cap msg (rest ++ []) st out)
          → ◌≡◌ {A = Scan S}
              (elim s [
                | stops r ↦ r
                | continues r st' out' ↦ scan_loop api skip out_cap n r st' out'
              ])
              (elim s [
                | stops r ↦ r
                | continues r st' out' ↦ scan_loop api skip out_cap m r st' out'
              ])
      go (stops r) p = refl
      go (continues r st' out') (same, p) =
          next r st' out' (subst (λ (t : Str). length t < length a) (sym same) shorter)

  -- More fuel than bytes changes nothing.
  pub scan_fuel :
      (n m : ℕ) (a : Str) (st : S) (out : Str)
      → length a ≤ n
      → length a ≤ m
      → scan_loop api skip out_cap n a st out ≡ scan_loop api skip out_cap m a st out
  unfolding scan_loop front
  scan_fuel zero zero a st out h k = refl
  scan_fuel zero (suc m) [] st out h k = refl
  scan_fuel zero (suc m) (x ∷ a) st out h k = absurd (omega arith)
  scan_fuel (suc n) zero [] st out h k = refl
  scan_fuel (suc n) zero (x ∷ a) st out h k = absurd (omega arith)
  scan_fuel (suc n) (suc m) a st out h k =
      fuel_step n m a (front a) (front-Decided a []) st out
        (λ r st' out' lt. scan_fuel n m r st' out' (omega arith) (omega arith))
