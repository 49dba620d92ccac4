-- ===== src/Loop/Accepts.antt =====
-- accept_one, the handshake and the input of a client keep the leases.
use pqproxy.Base.{
  ℕ, zero, suc, ◌+◌, ◌-◌, ◌≤◌, ◌≡◌, refl, sym, ap, subst, ◌∙◌, Bool, true, false, if_cases, ◌&&◌,
  ◌||◌, not, Option, none, some, codes, ltb, ◌==◌, if◌then◌else◌, length, arith,
}
use pqproxy.Identity.{Identity, Certificate, clear, from_cert_subject}
use pqproxy.Identity.Subject.{from_cert_subject-Fitting, from_x509-Fitting}
use pqproxy.Outbox.{Outbox, submit_poll}
use pqproxy.WaitRing.{max_conns}
use pqproxy.Metrics.{inc_accepts}
use pqproxy.Loop.{
  Backend, BackendLaws, cs_tls_hs, cs_active, Client, Server, Setup, FrontApi, Handled, note, put,
}
use pqproxy.Loop.Output.{entries_left}
use pqproxy.Loop.Schedule.{is_free, is_closing}
use pqproxy.Loop.Serving.{
  no_output, new_conn, Handshake, hs_failed, hs_waits, hs_done, tls_identity, free_from, identified,
  close_conn, or_close, submit_recv, poll_again, tls_on_handshake_done, first_handshake, accept_at,
  accept_one,
}
use pqproxy.Loop.Leases.{
  Watched, View, Sure, Apart, Apart-refl, put-Apart, Apart-Sure, Phased, rests, Steady,
  Steady-Loose, at_slot,
}
use pqproxy.Loop.Renews.{renew-Steady, put-Steady, rewatch}
use pqproxy.Loop.Failures.{of_Steady}
use pqproxy.Loop.Closing.{plain, using, or_close-Steady, close_any-Steady}

pub free_from-free :
    (conns : ℕ → Client) (k n : ℕ) {i : ℕ}
    → free_from conns k n ≡ some i
    → is_free (conns i).state ≡ true
unfolding free_from
free_from-free conns k zero e = absurd (nothing_there e)
  where
    nothing_there : {i : ℕ} → none ≡ some i → ⊥
    nothing_there h = cc
free_from-free conns k (suc n) {i} e =
    at (is_free (conns k).state) refl e (λ f. free_from-free conns (k + 1) n f)
  where
    at :
        (t : Bool)
        → is_free (conns k).state ≡ t
        → (if t then some k else free_from conns (k + 1) n) ≡ some i
        → (free_from conns (k + 1) n ≡ some i → is_free (conns i).state ≡ true)
        → is_free (conns i).state ≡ true
    at true h e next = subst (λ j. is_free (conns j).state ≡ true) (same e) h
      where
        same : {x y : ℕ} → some x ≡ some y → x ≡ y
        same h = cc
    at false h e next = next e

module _ {P : Type 0} (b : Backend P) (cfg : Setup) (api : FrontApi) where
  pub entries_left-le : (o o' : Outbox) (n : ℕ) → entries_left o o' n ≤ n
  entries_left-le o o' n =
      if_cases (λ k. k ≤ n)
        (o'.send_pending && not o.send_pending || o'.poll_pending && not o.poll_pending)
        (λ e. omega arith) (λ e. omega arith)

  pub poll_again-Apart : (s : Server P) (i : ℕ) → Apart s (poll_again b cfg api s i).1
  unfolding poll_again
  poll_again-Apart s i =
      let c = s.conns i in
      let (ok, o) = submit_poll (ltb 0 s.sqes) c.out in
      let a = put-Apart s i (record c { out = o }) refl refl refl in
      let polled : Apart s
          (record (put s i (record c { out = o })) { sqes = entries_left c.out o s.sqes }) =
        record { fewer = entries_left-le c.out o s.sqes; same = a.same } in
      if_cases (λ (r : Handled P). Apart s r.1) (is_free c.state) (λ e. Apart-refl s) (λ e. polled)

  pub submit_recv-Apart : (s : Server P) (i : ℕ) → Apart s (submit_recv b cfg api s i).1
  unfolding submit_recv
  submit_recv-Apart s i =
      let c = s.conns i in
      let a = put-Apart s i (record c { recv_pending = true }) refl refl refl in
      let received : Apart s
          (put (record s { sqes = s.sqes - 1 }) i (record c { recv_pending = true })) =
        record { fewer = omega arith; same = a.same } in
      let Q = λ (r : Handled P). Apart s r.1 in
      if_cases Q (c.out.ssl || c.recv_pending || is_closing c.state || is_free c.state)
        (λ e. Apart-refl s) λ e. if_cases Q (s.sqes == 0) (λ z. Apart-refl s) (λ z. received)

pub tls_identity-fits :
    (cert : Option Certificate) (id : Identity)
    → tls_identity cert ≡ some id
    → length id.group ≤ 127
tls_identity-fits none id e = absurd (nothing_there e)
  where
    nothing_there : none ≡ some id → ⊥
    nothing_there h = cc
tls_identity-fits (some cert) id e = omega (arith, (from_x509-Fitting cert id e).group_fits)

module _ {P : Type 0} {b : Backend P} (laws : Watched b) (cfg : Setup) (api : FrontApi) (G : Type 0)
    (i : ℕ) where
  abbrev Fit : Server P → Type 0
  Fit s = Sure (λ v. G × Steady laws v) s

  pub handshake_done-Fit :
      (s : Server P) (found : Option Identity)
      → ((id : Identity) → found ≡ some id → length id.group ≤ 127)
      → Fit s
      → Fit (tls_on_handshake_done b cfg api s i found).1
  unfolding tls_on_handshake_done
  handshake_done-Fit s none short pre h =
      let (g, st) = pre h in
      (
        g,
        put-Steady laws s i (record (s.conns i) { state = cs_active }) refl (st.leases.short i) refl
            st,
      )
  handshake_done-Fit s (some id) short pre h =
      let (g, st) = pre h in
      (
        g,
        put-Steady laws s i (identified b cfg api (record (s.conns i) { state = cs_active }) id)
            refl (short id refl) refl st,
      )

  pub first_handshake-Fit :
      (s : Server P) (hs : Handshake) → Fit s → Fit (first_handshake b cfg api s i hs).1
  unfolding first_handshake
  first_handshake-Fit s hs_failed pre = pre
  first_handshake-Fit s (hs_waits write) pre =
      Apart-Sure (λ v. G × Steady laws v) (poll_again-Apart b cfg api s i) pre
  first_handshake-Fit s (hs_done cert) pre =
      let r = tls_on_handshake_done b cfg api s i (tls_identity cert) in
      let done = handshake_done-Fit s (tls_identity cert) (tls_identity-fits cert) pre in
      if_cases (λ (t : Handled P). Fit t.1) r.0
        (λ e. Apart-Sure (λ v. G × Steady laws v) (poll_again-Apart b cfg api r.1 i) done)
        (λ e. done)

module _ {P : Type 0} {b : Backend P} (base : BackendLaws b) (cfg : Setup) (api : FrontApi)
    (pooled : cfg.has_pool ≡ true) {G : Type 0} where
  -- A free slot is taken by a client whose lane holds nothing.
  taken :
      (s : Server P) (i : ℕ) (c : Client)
      → is_free (s.conns i).state ≡ true
      → c.be ≡ none
      → length c.id.group ≤ 127
      → Phased c.lane
      → Sure (λ v. G × Steady (plain base) v) s
      → Sure (λ v. G × Steady (plain base) v) (put s i c)
  taken s i c free empty short ph pre h =
      let (g, st) = pre h in
      (
        g,
        renew-Steady (plain base) i s c refl (empty ∙ sym (st.leases.freed i free)) short
            (λ f. absurd f) (λ t. empty) (λ d. absurd d) ph (Steady-Loose (plain base) i st),
      )

  pub now_used :
      (s : Server P) (i : ℕ)
      → is_free (s.conns i).state ≡ false
      → Sure (λ v. G × Steady (plain base) v) s
      → Sure (λ v. G × Steady (using base i) v) s
  now_used s i live pre h =
      let (g, st) = pre h in
      (g, rewatch refl st (λ j f. ap (λ n. is_free (s.conns n).state) f ∙ live) (λ j d. absurd d))

  accept_at-Steady :
      (s : Server P) (i fd : ℕ) (created : Bool) (tls : Option Handshake)
      → is_free (s.conns i).state ≡ true
      → Sure (λ v. G × Steady (plain base) v) s
      → Sure (λ v. G × Steady (plain base) v) (accept_at b cfg api s i fd created tls)
  unfolding accept_at clear
  accept_at-Steady s i fd created tls free pre =
      let Q = λ (v : View P). G × Steady (plain base) v in
      let s' = note inc_accepts (put s i (new_conn (some fd))) in
      let fresh : Sure Q s' =
        taken s i (new_conn (some fd)) free refl (omega arith) (rests refl refl refl refl) pre in
      let at_i : is_free (s'.conns i).state ≡ true =
        at_slot (λ (d : Client). is_free d.state ≡ true) s.conns i i (new_conn (some fd))
          (λ e. refl) (λ ne. free) in
      let p : Client =
        identified b cfg api (record (new_conn (some fd)) { state = cs_active })
          (from_cert_subject (codes "plain-dev:default")) in
      let plain_client : Sure Q (put s' i p) =
        taken s' i p at_i refl
          (omega (arith, (from_cert_subject-Fitting (codes "plain-dev:default")).group_fits))
          (rests refl refl refl refl) fresh in
      let used : is_free ((put s' i p).conns i).state ≡ false =
        at_slot (λ (d : Client). is_free d.state ≡ false) s'.conns i i p (λ e. refl)
          (λ ne. absurd (ne refl)) in
      if_cases (Sure Q) (not created) (λ e. close_any-Steady base cfg api pooled s' i fresh)
        λ e.
          if_cases (Sure Q) cfg.has_tls (λ f. over_tls tls fresh at_i)
            (λ f. or_close-Steady base cfg api pooled i (submit_recv b cfg api (put s' i p) i) (
              of_Steady (using base i) (λ j d. d) cfg api i (submit_recv b cfg api (put s' i p) i)
                (Apart-Sure (λ v. G × Steady (using base i) v)
                  (submit_recv-Apart b cfg api (put s' i p) i)
                  (now_used (put s' i p) i used plain_client))))
    where
      accepted : Server P
      accepted = note inc_accepts (put s i (new_conn (some fd)))

      secure : Client
      secure = record (new_conn (some fd)) { state = cs_tls_hs; out = no_output true }

      over_tls :
          (t : Option Handshake)
          → Sure (λ v. G × Steady (plain base) v) accepted
          → is_free (accepted.conns i).state ≡ true
          → Sure
              (λ v. G × Steady (plain base) v)
              (elim t as (λ x. Server P) [
                | none ↦ close_conn b cfg api accepted i
                | some hs ↦
                    or_close b cfg api i (first_handshake b cfg api (put accepted i secure) i hs)
              ])
      over_tls none fresh at_i = close_any-Steady base cfg api pooled accepted i fresh
      over_tls (some hs) fresh at_i =
          or_close-Steady base cfg api pooled i
            (first_handshake b cfg api (put accepted i secure) i hs)
            (of_Steady (using base i) (λ j d. d) cfg api i
              (first_handshake b cfg api (put accepted i secure) i hs)
              (first_handshake-Fit (using base i) cfg api G i (put accepted i secure) hs (
                now_used (put accepted i secure) i
                  (at_slot (λ (d : Client). is_free d.state ≡ false) accepted.conns i i secure
                    (λ e. refl) (λ ne. absurd (ne refl)))
                  (taken accepted i secure at_i refl (omega arith) (rests refl refl refl refl)
                    fresh))))

  pub accept_one-Steady :
      (s : Server P) (fd : ℕ) (created : Bool) (tls : Option Handshake)
      → Sure (λ v. G × Steady (plain base) v) s
      → Sure (λ v. G × Steady (plain base) v) (accept_one b cfg api s fd created tls)
  unfolding accept_one
  accept_one-Steady s fd created tls pre =
      at (free_from s.conns 0 max_conns) (λ i e. free_from-free s.conns 0 max_conns e)
    where
      at :
          (o : Option ℕ)
          → ((i : ℕ) → o ≡ some i → is_free (s.conns i).state ≡ true)
          → Sure
              (λ v. G × Steady (plain base) v)
              (elim o as (λ x. Server P) [
                | none ↦ s
                | some i ↦ accept_at b cfg api s i fd created tls
              ])
      at none free = pre
      at (some i) free = accept_at-Steady s i fd created tls (free i refl) pre
