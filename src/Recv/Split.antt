-- ===== src/Recv/Split.antt =====
-- The bytes of a pipeline may come in any number of reads.
use pqproxy.Base.{
  ℕ, zero, suc, ◌≤◌, ◌<◌, ◌≡◌, sym, ap, subst, ◌∙◌, Bool, [], ◌∷◌, ◌++◌, Str, length, length-append,
  arith,
}
use pqproxy.Recv.{
  PipelineApi, Front, partial, malformed, message, front, Ending, failed, waits, completes, Scan,
  Step, stops, continues, be_filter_append, on_front, scan_loop,
}
use pqproxy.Recv.Chunks.{
  Decided, front-Decided, Finished, Passes, be_filter_append-Passes, scan_fuel,
}

module _ {S : Type 0} (api : PipelineApi S) (skip : Bool) (out_cap : ℕ) where
  abbrev go_on : ℕ → Step S → Scan S
  go_on n s = elim s [
    | stops r ↦ r
    | continues rest st out ↦ scan_loop api skip out_cap n rest st out
  ]

  -- How a scan_loop `r` of at most `n` bytes goes on when `b` follows.
  abbrev pub After : Ending → Scan S → ℕ → Str → Scan S → Type 0
  After waits r n b s =
      (length r.rest ≤ n)
      × (s ≡ scan_loop api skip out_cap (length (r.rest ++ b)) (r.rest ++ b) r.pipe_st r.out)
  After failed r n b s = s ≡ record r { rest = r.rest ++ b }
  After completes r n b s = s ≡ record r { rest = r.rest ++ b }

  After-Finished :
      (e : Ending) (r : Scan S) (n : ℕ) (b : Str) (s : Scan S)
      → Finished e
      → s ≡ record r { rest = r.rest ++ b }
      → After e r n b s
  After-Finished failed r n b s f p = p
  After-Finished waits r n b s f p = absurd f
  After-Finished completes r n b s f p = p

  After-more :
      (e : Ending) (r : Scan S) (n m : ℕ) (b : Str) (s : Scan S)
      → n ≤ m
      → After e r n b s
      → After e r m b s
  After-more failed r n m b s h p = p
  After-more waits r n m b s h (le, p) = (omega arith, p)
  After-more completes r n m b s h p = p

  -- A round, given the rounds after it.
  round-After :
      (n m : ℕ) (a b : Str) (f : Front)
      → Decided f a b
      → length (a ++ b) ≤ suc m
      → (st : S) (out : Str)
      → ((r : Str) (st' : S) (out' : Str)
          → length r < length a
          → After
              (scan_loop api skip out_cap n r st' out').ending
              (scan_loop api skip out_cap n r st' out')
              (length r)
              b
              (scan_loop api skip out_cap m (r ++ b) st' out'))
      → After
          (go_on n (on_front api skip out_cap f a st out)).ending
          (go_on n (on_front api skip out_cap f a st out))
          (length a)
          b
          (scan_loop api skip out_cap (suc m) (a ++ b) st out)
  unfolding on_front scan_loop
  round-After n m a b partial d h st out next = (
    omega arith,
    scan_fuel api skip out_cap (suc m) (length (a ++ b)) (a ++ b) st out h (omega arith),
  )
  round-After n m a b malformed d h st out next =
      ap (λ f. go_on m (on_front api skip out_cap f (a ++ b) st out)) d
  round-After n m a b (message msg rest) (d, shorter) h st out next =
      go (be_filter_append api skip out_cap msg rest st out)
        (be_filter_append-Passes api skip out_cap msg rest b st out)
    where
      whole :
          scan_loop api skip out_cap (suc m) (a ++ b) st out
          ≡ go_on m (be_filter_append api skip out_cap msg (rest ++ b) st out)
      whole = ap (λ f. go_on m (on_front api skip out_cap f (a ++ b) st out)) d

      go :
          (s : Step S)
          → Passes api skip out_cap s rest b
              (be_filter_append api skip out_cap msg (rest ++ b) st out)
          → After
              (go_on n s).ending
              (go_on n s)
              (length a)
              b
              (scan_loop api skip out_cap (suc m) (a ++ b) st out)
      go (stops r) (fin, p) =
          After-Finished r.ending r (length a) b
            (scan_loop api skip out_cap (suc m) (a ++ b) st out) fin (whole ∙ ap (go_on m) p)
      go (continues r st' out') (same, p) =
          let lt = subst (λ (t : Str). length t < length a) (sym same) shorter in
          let r' = scan_loop api skip out_cap n r st' out' in
          subst (After r'.ending r' (length a) b)
            (sym (
              whole
              ∙ ap (go_on m) p
              ∙ ap (λ t. scan_loop api skip out_cap m (t ++ b) st' out') (sym same)))
            (After-more r'.ending r' (length r) (length a) b _ (omega arith) (next r st' out' lt))

  pub scan_loop-append :
      (n m : ℕ) (a b : Str) (st : S) (out : Str)
      → length a ≤ n
      → length (a ++ b) ≤ m
      → After
          (scan_loop api skip out_cap n a st out).ending
          (scan_loop api skip out_cap n a st out)
          (length a)
          b
          (scan_loop api skip out_cap m (a ++ b) st out)
  unfolding scan_loop front
  scan_loop-append zero m [] b st out h k =
      (omega arith, scan_fuel api skip out_cap m (length b) b st out k (omega arith))
  scan_loop-append zero m (x ∷ a) b st out h k = absurd (omega arith)
  scan_loop-append (suc n) m [] b st out h k =
      (omega arith, scan_fuel api skip out_cap m (length b) b st out k (omega arith))
  scan_loop-append (suc n) zero (x ∷ a) b st out h k = absurd (omega arith)
  scan_loop-append (suc n) (suc m) (x ∷ a) b st out h k =
      round-After n m (x ∷ a) b (front (x ∷ a)) (front-Decided (x ∷ a) b) k st out (λ r st' out' lt.
        scan_loop-append n m r b st' out' (omega arith)
          (omega (arith, length-append (x ∷ a) b, length-append r b)))
