-- ===== src/SessionWatcher/OnlyOnce.antt =====
-- A delivered message is not published again by bridge/src/session-watcher.mjs.
use hermes_codex_bridge.Base.{
  ℕ, suc, String, ◌≡◌, ◌⊎◌, refl, sym, ◌∙◌, ap, inl, inr, Bool, true, false, Bool-cases, Option,
  List, [], ◌∷◌, str_eq, eq_iff, if◌then◌else◌, Result, ok, err, Result-cases, subst, arith,
}
use hermes_codex_bridge.Base.Actions.{Action, ◌>>=◌, reads, bind-eq, bind-err}
use hermes_codex_bridge.Base.Json.{Json}
use hermes_codex_bridge.Ledger.Lines as Ledger
use hermes_codex_bridge.Ledger.Open.{Marked, Ledger, mark, has, hash_key}
use hermes_codex_bridge.Ledger.Kept.{Extends, mark-Extends}
use hermes_codex_bridge.Ledger.Once.{IsClaimed, IsClaimed-Extends, mark-IsClaimed}
use hermes_codex_bridge.RolloutParser.Final.{Message}
use hermes_codex_bridge.SessionWatcher.State.{Code, dedupe}
use hermes_codex_bridge.SessionWatcher.Deliver.{
  Answer, Call, Watch, is_acknowledged, mark_and_report, accept, acknowledge, publish_call,
  effective_dedupe_key, check_abort, call_publish, knows, mark_key, report, deliver_new,
  deliver_unless, call_of, deliver_observation,
}

-- how often a key was published
unfoldable pub count_calls : String → List Call → ℕ
count_calls key [] = 0
count_calls key (c ∷ cs) =
    if str_eq c.dedupe_key key then suc (count_calls key cs) else count_calls key cs

module _ (sha256 : String → String) (signal : ℕ → Bool) (answers : ℕ → Answer) (fails : ℕ → Bool)
    (others : ℕ → List String) (hash_of : String → String) (appended : ℕ → Option String) where
  -- the ledger has a claim for a key
  abbrev Knows : String → Ledger → Type 0
  Knows key l = (str_eq key "" ≡ false) × IsClaimed (hash_of key) l.disk.claims

  marked_ok :
      (m : Marked) (l : Ledger) (key : String)
      → ◌≡◌ {A = Result Code Marked}
          (elim (mark fails others hash_of appended key l).0 [ ok m ↦ ok m | err _ ↦ err dedupe ])
          (ok m)
      → (mark fails others hash_of appended key l).0 ≡ ok m
  marked_ok m l key h = go (mark fails others hash_of appended key l).0 h
    where
      go :
          (out : Result Ledger.Code Marked)
          → ◌≡◌ {A = Result Code Marked} (elim out [ ok m ↦ ok m | err _ ↦ err dedupe ]) (ok m)
          → out ≡ ok m
      go (ok m') k = ground arith
      go (err e) k = absurd (ground arith)

  -- what is true behind a part of a delivery: no more calls than these, no claim lost, and the key
  -- known where it returned
  record IsDelivered (calls : List Call) (l : Ledger) (key : String)
      (out : Result Code Bool × Watch) : Type 0 where
    called : out.1.calls ≡ calls
    kept : Extends l.disk.claims out.1.ledger.disk.claims
    known : (b : Bool) → out.0 ≡ ok b → Knows key out.1.ledger

  bind-IsDelivered :
      {A : Type 0} (m : Action Watch Code A) (f : A → Action Watch Code Bool) (w : Watch)
      (calls : List Call) (l : Ledger) (key : String)
      → ((e : Code)
          → (m w).0 ≡ err e
          → ((m w).1.calls ≡ calls) × Extends l.disk.claims (m w).1.ledger.disk.claims)
      → ((a : A) → (m w).0 ≡ ok a → IsDelivered calls l key (f a (m w).1))
      → IsDelivered calls l key ((m >>= f) w)
  bind-IsDelivered {A} m f w calls l key = go (m w)
    where
      go :
          (out : Result Code A × Watch)
          → ((e : Code)
              → out.0 ≡ err e
              → (out.1.calls ≡ calls) × Extends l.disk.claims out.1.ledger.disk.claims)
          → ((a : A) → out.0 ≡ ok a → IsDelivered calls l key (f a out.1))
          → IsDelivered calls l key (elim out.0 as (λ _. Result Code Bool × Watch) [
            | ok x ↦ f x out.1
            | err e ↦ (err e, out.1)
          ])
      go (err e, s) bad good =
          let (called, kept) = bad e refl in
          record { called = called; kept = kept; known = λ b k. absurd (ground arith) }
      go (ok a, s) bad good = good a refl

  mark_and_report-IsDelivered :
      (call : Call) (path : String) (w : Watch)
      → IsDelivered w.calls w.ledger call.dedupe_key
          (mark_and_report sha256 signal answers fails others hash_of appended call path w)
  unfolding mark_and_report mark_key report
  mark_and_report-IsDelivered call path w =
      let extends = mark-Extends fails others hash_of appended call.dedupe_key w.ledger in
      bind-IsDelivered
        (mark_key sha256 signal answers fails others hash_of appended call.dedupe_key)
        (λ m. report sha256 signal answers fails others hash_of appended m path) w w.calls w.ledger
        call.dedupe_key (λ e k. (refl, extends))
        λ m k. record {
          called = refl;
          kept = extends;
          known = λ b _.
              let (claimed, _, named, _) =
                mark-IsClaimed fails others hash_of appended call.dedupe_key w.ledger m
                  (marked_ok m w.ledger call.dedupe_key k) in
              (named, claimed);
        }

  accept-IsDelivered :
      (call : Call) (path : String) (v : Json) (w : Watch)
      → IsDelivered w.calls w.ledger call.dedupe_key
          (accept sha256 signal answers fails others hash_of appended call path v w)
  unfolding accept
  accept-IsDelivered call path v w =
      bind-IsDelivered
        (reads λ _. is_acknowledged sha256 signal answers fails others hash_of appended call v)
        (λ _. mark_and_report sha256 signal answers fails others hash_of appended call path) w
        w.calls w.ledger call.dedupe_key (λ e k. (refl, λ h x there. there))
        λ _ _. mark_and_report-IsDelivered call path w

  acknowledge-IsDelivered :
      (call : Call) (path : String) (v : Json) (w : Watch)
      → IsDelivered w.calls w.ledger call.dedupe_key
          (acknowledge sha256 signal answers fails others hash_of appended call path v w)
  unfolding acknowledge check_abort
  acknowledge-IsDelivered call path v w =
      bind-IsDelivered (check_abort sha256 signal answers fails others hash_of appended)
        (λ _. accept sha256 signal answers fails others hash_of appended call path v) w w.calls
        w.ledger call.dedupe_key (λ e k. (refl, λ h x there. there))
        λ _ _. accept-IsDelivered call path v (record w { looks = suc w.looks })

  publish_call-IsDelivered :
      (call : Call) (path : String) (w : Watch)
      → IsDelivered
          (call ∷ w.calls)
          w.ledger
          call.dedupe_key
          (publish_call sha256 signal answers fails others hash_of appended call path w)
  unfolding publish_call call_publish
  publish_call-IsDelivered call path w =
      bind-IsDelivered (call_publish sha256 signal answers fails others hash_of appended call)
        (λ v. acknowledge sha256 signal answers fails others hash_of appended call path v) w
        (call ∷ w.calls) w.ledger call.dedupe_key (λ e k. (refl, λ h x there. there))
        λ v _.
          acknowledge-IsDelivered call path v
            (call_publish sha256 signal answers fails others hash_of appended call w).1

  deliver_new-IsDelivered :
      (call : Call) (path : String) (w : Watch)
      → IsDelivered w.calls w.ledger call.dedupe_key
          (deliver_new sha256 signal answers fails others hash_of appended call path w)
        ⊎ IsDelivered
            (call ∷ w.calls)
            w.ledger
            call.dedupe_key
            (deliver_new sha256 signal answers fails others hash_of appended call path w)
  unfolding deliver_new check_abort
  deliver_new-IsDelivered call path w = elim (Bool-cases (signal w.looks)) [
    | inl gone ↦ inl (
        bind-IsDelivered (check_abort sha256 signal answers fails others hash_of appended)
          (λ _. publish_call sha256 signal answers fails others hash_of appended call path) w
          w.calls w.ledger call.dedupe_key (λ e k. (refl, λ h x there. there))
          λ _ k. absurd (ground (arith, gone, k)))
    | inr going ↦ inr (
        bind-IsDelivered (check_abort sha256 signal answers fails others hash_of appended)
          (λ _. publish_call sha256 signal answers fails others hash_of appended call path) w
          (call ∷ w.calls) w.ledger call.dedupe_key (λ e k. absurd (ground (arith, going, k)))
          λ _ _. publish_call-IsDelivered call path (record w { looks = suc w.looks }))
  ]

  -- what the ledger answers, and what it knows
  knows-Knows :
      (key : String) (w : Watch)
      → knows sha256 signal answers fails others hash_of appended key w ≡ ok true
      → Knows key w.ledger
  unfolding knows has hash_key
  knows-Knows key w h = (ground arith, ground arith)

  Knows-knows :
      (key : String) (w : Watch)
      → Knows key w.ledger
      → (knows sha256 signal answers fails others hash_of appended key w ≡ ok true)
        ⊎ ((e : Code) × (knows sha256 signal answers fails others hash_of appended key w ≡ err e))
  unfolding knows has hash_key
  Knows-knows key w (named, claimed) = elim (Bool-cases w.ledger.is_closed) [
    | inl e ↦ inr (dedupe, ground arith)
    | inr e ↦ inl (ground arith)
  ]

  deliver_observation-eq :
      (m : Message) (path : String) (w : Watch) (b : Bool)
      → knows sha256 signal answers fails others hash_of appended (effective_dedupe_key m path) w
        ≡ ok b
      → deliver_observation sha256 signal answers fails others hash_of appended m path w
        ≡ deliver_unless sha256 signal answers fails others hash_of appended b m path w
  unfolding deliver_observation
  deliver_observation-eq m path w b h =
      bind-eq
        (reads
          (knows sha256 signal answers fails others hash_of appended (effective_dedupe_key m path)))
        (λ known. deliver_unless sha256 signal answers fails others hash_of appended known m path) w
        {a = b} {s' = w} (ap (λ out. (out, w)) h)

  deliver_observation-err :
      (m : Message) (path : String) (w : Watch) (e : Code)
      → knows sha256 signal answers fails others hash_of appended (effective_dedupe_key m path) w
        ≡ err e
      → deliver_observation sha256 signal answers fails others hash_of appended m path w
        ≡ (err e, w)
  unfolding deliver_observation
  deliver_observation-err m path w e h =
      bind-err
        (reads
          (knows sha256 signal answers fails others hash_of appended (effective_dedupe_key m path)))
        (λ known. deliver_unless sha256 signal answers fails others hash_of appended known m path) w
        {e = e} {s' = w} (ap (λ out. (out, w)) h)

  -- a message whose key is known: nothing is called, and nothing changes
  deliver_observation-known :
      (m : Message) (path : String) (w : Watch)
      → Knows (effective_dedupe_key m path) w.ledger
      → (deliver_observation sha256 signal answers fails others hash_of appended m path w).1 ≡ w
  unfolding deliver_unless
  deliver_observation-known m path w known =
      elim (Knows-knows (effective_dedupe_key m path) w known) [
        | inl h ↦ ap (λ out. out.1) (deliver_observation-eq m path w true h)
        | inr (e, h) ↦ ap (λ out. out.1) (deliver_observation-err m path w e h)
      ]

  -- the key of a message is published, or not, and then it is known
  deliver_observation-IsDelivered :
      (m : Message) (path : String) (w : Watch)
      → IsDelivered w.calls w.ledger
          (effective_dedupe_key m path)
          (deliver_observation sha256 signal answers fails others hash_of appended m path w)
        ⊎ IsDelivered
            (call_of sha256 signal answers fails others hash_of appended m path ∷ w.calls)
            w.ledger
            (effective_dedupe_key m path)
            (deliver_observation sha256 signal answers fails others hash_of appended m path w)
  unfolding deliver_unless
  deliver_observation-IsDelivered m path w =
      let key = effective_dedupe_key m path in
      elim (Result-cases (knows sha256 signal answers fails others hash_of appended key w)) [
        | inr (e, h) ↦ inl (
            subst (IsDelivered w.calls w.ledger key) (sym (deliver_observation-err m path w e h))
              (record {
                called = refl;
                kept = λ x y there. there;
                known = λ b k. absurd (ground arith);
              }))
        | inl (true, h) ↦ inl (
            subst (IsDelivered w.calls w.ledger key) (sym (deliver_observation-eq m path w true h))
              (record {
                called = refl;
                kept = λ x y there. there;
                known = λ b k. knows-Knows key w h;
              }))
        | inl (false, h) ↦
            let back = sym (deliver_observation-eq m path w false h) in
            elim (deliver_new-IsDelivered
              (call_of sha256 signal answers fails others hash_of appended m path) path w) [
                | inl d ↦ inl (subst (IsDelivered w.calls w.ledger key) back d)
                | inr d ↦ inr (
                    subst
                      (IsDelivered
                        (call_of sha256 signal answers fails others hash_of appended m path
                          ∷ w.calls)
                        w.ledger key)
                      back d)
              ]
      ]

  -- messages one after the other, whether or not they can be delivered
  unfoldable pub deliver_all : List (Message × String) → Watch → Watch
  deliver_all [] w = w
  deliver_all ((m, path) ∷ rest) w =
      deliver_all rest
        (deliver_observation sha256 signal answers fails others hash_of appended m path w).1

  Knows-Extends :
      (key : String) (l l' : Ledger)
      → Extends l.disk.claims l'.disk.claims
      → Knows key l
      → Knows key l'
  Knows-Extends key l l' kept (named, claimed) =
      (named, IsClaimed-Extends (hash_of key) l.disk.claims l'.disk.claims kept claimed)

  -- a known key stays known, and its calls are counted already
  deliver_observation-count :
      (m : Message) (path key : String) (w : Watch)
      → Knows key w.ledger
      → let w' =
          (deliver_observation sha256 signal answers fails others hash_of appended m path w).1 in
        Knows key w'.ledger × (count_calls key w'.calls ≡ count_calls key w.calls)
  unfolding count_calls
  deliver_observation-count m path key w known =
      elim (Bool-cases (str_eq (effective_dedupe_key m path) key)) [
        | inl same ↦
            let e = (eq_iff (effective_dedupe_key m path) key).0 same in
            let still =
              deliver_observation-known m path w (subst (λ k. Knows k w.ledger) (sym e) known) in
            (
              subst (λ u. Knows key u.ledger) (sym still) known,
              ap (λ u. count_calls key u.calls) still,
            )
        | inr other ↦ elim (deliver_observation-IsDelivered m path w) [
          | inl d ↦ (
            Knows-Extends key w.ledger
                (deliver_observation sha256 signal answers fails others hash_of appended m path
                  w).1.ledger
                d.kept known,
            ap (count_calls key) d.called,
          )
          | inr d ↦ (
            Knows-Extends key w.ledger
                (deliver_observation sha256 signal answers fails others hash_of appended m path
                  w).1.ledger
                d.kept known,
            ap (count_calls key) d.called ∙ ground (arith, other),
          )
        ]
      ]

  deliver_all-count :
      (rest : List (Message × String)) (key : String) (w : Watch)
      → Knows key w.ledger
      → count_calls key (deliver_all rest w).calls ≡ count_calls key w.calls
  unfolding deliver_all
  deliver_all-count [] key w known = refl
  deliver_all-count ((m, path) ∷ rest) key w known =
      let (still, same) = deliver_observation-count m path key w known in
      deliver_all-count rest key
        (deliver_observation sha256 signal answers fails others hash_of appended m path w).1 still
      ∙ same

  -- Once a delivery has returned, whether it marked the message or found it marked, no later
  -- delivery publishes a message of the same key, whichever of them fail and wherever they stop.
  pub deliver_all-once :
      (m : Message) (path : String) (rest : List (Message × String)) (w : Watch) (b : Bool)
      → (deliver_observation sha256 signal answers fails others hash_of appended m path w).0 ≡ ok b
      → let w' =
          (deliver_observation sha256 signal answers fails others hash_of appended m path w).1 in
        count_calls (effective_dedupe_key m path) (deliver_all rest w').calls
        ≡ count_calls (effective_dedupe_key m path) w'.calls
  deliver_all-once m path rest w b h = elim (deliver_observation-IsDelivered m path w) [
    | inl d ↦ deliver_all-count rest (effective_dedupe_key m path) _ (d.known b h)
    | inr d ↦ deliver_all-count rest (effective_dedupe_key m path) _ (d.known b h)
  ]
