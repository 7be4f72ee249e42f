-- ===== src/Aggregate/Replay.antt =====
-- Event sourcing in aggregate_oo.go: the state in memory and the recorded events.
use angzarr_client_go.Prelude.{
  ℕ, ◌+◌, ◌^◌, ◌<◌, Option, none, some, true, false, List, [], ◌∷◌, ◌++◌, ◌≡◌, refl, ap, ◌∙◌, sym,
  arith, length, length-append, append_assoc, append-nil, Bool-cases, inl, inr, str_eq,
  if◌then◌else◌,
}
use mathlib.Core.Path.{subst}
use angzarr_client_go.Proto.{Any, EventPage, sequence_header}
use angzarr_client_go.Errors.{Result, ok, err}
use angzarr_client_go.Helpers.Books.{u32}
use angzarr_client_go.Helpers.Books.Sequences.{IsNumbered}
use angzarr_client_go.Helpers.TypeUrl.{match_type}
use angzarr_client_go.Aggregate.{
  Data, Registry, apply_payload, apply_event, apply_cached, apply_pages, rebuild, ensure_state,
  new_page, record_packed, record_event, record_events, finish_single, finish_multi, run_single,
  run_multi, dispatch,
}

IsNumbered-snoc :
    (seq : ℕ) (ps : List EventPage) (p : EventPage)
    → IsNumbered seq ps
    → p.header ≡ some (sequence_header (u32 (seq + length ps)))
    → IsNumbered seq (ps ++ p ∷ [])
IsNumbered-snoc seq [] p h e = (e ∙ ap (λ n. some (sequence_header n)) (omega arith), tt)
IsNumbered-snoc seq (q ∷ ps) p (hq, h) e =
    (hq, IsNumbered-snoc (seq + 1) ps p h (e ∙ ap (λ n. some (sequence_header n)) (omega arith)))

module _ {S M : Type 0} (reg : Registry S M) where
  apply_pages-append :
      (s : S) (ps qs : List EventPage)
      → apply_pages reg s (ps ++ qs) ≡ apply_pages reg (apply_pages reg s ps) qs
  unfolding apply_pages
  apply_pages-append s [] qs = refl
  apply_pages-append s (p ∷ ps) qs = apply_pages-append (apply_payload reg s p.event) ps qs

  -- The state is the replay of `prior` and of the recorded pages, which are numbered from `start`.
  pub record IsSound (start : ℕ) (prior : List EventPage) (d : Data S) : Type 0 where
    pub state : d.state ≡ some (apply_pages reg reg.factory (prior ++ d.event_book.pages))
    pub set : d.state_set ≡ true
    pub numbered : IsNumbered start d.event_book.pages
    pub next : d.next_seq ≡ u32 (start + length d.event_book.pages)

  rebuild-IsSound :
      (d : Data S)
      → d.event_book.next_sequence < 2 ^ 32
      → IsSound d.event_book.next_sequence d.event_book.pages (rebuild reg d)
  unfolding rebuild
  rebuild-IsSound d small = record {
    state = ap (λ ps. some (apply_pages reg reg.factory ps)) (sym (append-nil d.event_book.pages));
    set = refl;
    numbered = tt;
    next = omega arith;
  }

  replay-snoc :
      (prior ps : List EventPage) (p : EventPage) (event : Any)
      → p.event ≡ some event
      → apply_pages reg reg.factory (prior ++ (ps ++ p ∷ []))
        ≡ apply_event reg (apply_pages reg reg.factory (prior ++ ps)) event
  replay-snoc prior ps p event e =
      ap (apply_pages reg reg.factory) (sym (append_assoc prior ps (p ∷ [])))
      ∙ apply_pages-append reg.factory (prior ++ ps) (p ∷ [])
      ∙ unfold apply_pages in ap (apply_payload reg (apply_pages reg reg.factory (prior ++ ps))) e

  module _ (start : ℕ) (prior : List EventPage) where
    record_packed-IsSound :
        (d : Data S) (packed : Result Any)
        → IsSound start prior d
        → IsSound start prior (record_packed reg d packed)
    record_packed-IsSound d (err e) h = h
    record_packed-IsSound d (ok event) h = record {
      state =
          ap (apply_cached reg event) h.state
          ∙ ap some
              (sym (replay-snoc prior d.event_book.pages (new_page d.next_seq event) event refl));
      set = h.set;
      numbered =
          IsNumbered-snoc start d.event_book.pages (new_page d.next_seq event) h.numbered
            (ap (λ n. some (sequence_header n)) h.next);
      next =
          omega
            (arith, h.next, length-append {0} d.event_book.pages (new_page d.next_seq event ∷ []));
    }

    record_event-IsSound :
        (pack : M → Result Any) (d : Data S) (event : Option M)
        → IsSound start prior d
        → IsSound start prior (record_event reg pack d event)
    record_event-IsSound pack d none h = h
    record_event-IsSound pack d (some event) h = record_packed-IsSound d (pack event) h

    record_events-IsSound :
        (pack : M → Result Any) (d : Data S) (events : List (Option M))
        → IsSound start prior d
        → IsSound start prior (record_events reg pack d events)
    unfolding record_events
    record_events-IsSound pack d [] h = h
    record_events-IsSound pack d (event ∷ events) h =
        record_events-IsSound pack (record_event reg pack d event) events
          (record_event-IsSound pack d event h)

  -- The data after `State()` on data that is not built yet, or that is sound already.
  module _ (pack : M → Result Any) (start : ℕ) (prior : List EventPage) (d : Data S)
      (built : IsSound start prior (ensure_state reg d)) where
    finish_single-IsSound :
        (r : Result (Option M))
        → IsSound start prior (finish_single reg pack (ensure_state reg d) r).0
    finish_single-IsSound (err e) = built
    finish_single-IsSound (ok event) =
        record_event-IsSound start prior pack (ensure_state reg d) event built

    finish_multi-IsSound :
        (r : Result (List (Option M)))
        → IsSound start prior (finish_multi reg pack (ensure_state reg d) r).0
    finish_multi-IsSound (err e) = built
    finish_multi-IsSound (ok events) =
        record_events-IsSound start prior pack (ensure_state reg d) events built

    run_multi-IsSound :
        (cmd : Any) (o : Option (Data S → Any → Result (List (Option M)))) (d' : Data S)
        → run_multi reg pack d cmd o ≡ (d', ok tt)
        → IsSound start prior d'
    run_multi-IsSound cmd none d' e = cc
    run_multi-IsSound cmd (some handler) d' e =
        subst (IsSound start prior) (ap (λ r. r.0) e)
          (finish_multi-IsSound (handler (ensure_state reg d) cmd))

    run_single-IsSound :
        (cmd : Any) (o : Option (Data S → Any → Result (Option M))) (d' : Data S)
        → run_single reg pack d cmd o ≡ (d', ok tt)
        → IsSound start prior d'
    run_single-IsSound cmd none d' e =
        run_multi-IsSound cmd (match_type cmd.type_url reg.multi_handlers) d' e
    run_single-IsSound cmd (some handler) d' e =
        subst (IsSound start prior) (ap (λ r. r.0) e)
          (finish_single-IsSound (handler (ensure_state reg d) cmd))

    dispatch-IsSound :
        (cmd : Option Any) (d' : Data S)
        → dispatch reg pack d cmd ≡ (d', ok tt)
        → IsSound start prior d'
    unfolding dispatch
    dispatch-IsSound none d' e = cc
    dispatch-IsSound (some cmd) d' e = elim (Bool-cases (str_eq cmd.type_url "")) [
      | inl blank ↦ absurd (cc (blank, e))
      | inr named ↦ run_single-IsSound cmd (match_type cmd.type_url reg.handlers) d' (rw named at e)
    ]

  ensure_state-unbuilt : (d : Data S) → d.state_set ≡ false → ensure_state reg d ≡ rebuild reg d
  unfolding ensure_state
  ensure_state-unbuilt d unset = rw unset

  ensure_state-built : (d : Data S) → d.state_set ≡ true → ensure_state reg d ≡ d
  unfolding ensure_state
  ensure_state-built d set = ap (λ b. if b then d else rebuild reg d) set

  -- After a dispatch without an error on a base whose state was not built yet and whose book's next
  -- sequence is below 2^32, the state in memory is the replay of the prior events followed by the
  -- recorded ones, and the recorded pages carry the sequence numbers from the book's next sequence
  -- on, modulo 2^32.
  pub dispatch-replay :
      (pack : M → Result Any) (d d' : Data S) (cmd : Option Any)
      → d.state_set ≡ false
      → d.event_book.next_sequence < 2 ^ 32
      → dispatch reg pack d cmd ≡ (d', ok tt)
      → IsSound d.event_book.next_sequence d.event_book.pages d'
  dispatch-replay pack d d' cmd unset small e =
      dispatch-IsSound pack d.event_book.next_sequence d.event_book.pages d
        (rw (ensure_state-unbuilt d unset) (rebuild-IsSound d small)) cmd d' e

  -- On a base whose state is the replay of one history and whose recorded pages are numbered on, a
  -- further dispatch without an error leaves it so: the state is the replay of the prior events and
  -- of all events recorded since, numbered on from the same start.
  pub dispatch-replay_again :
      (pack : M → Result Any) (start : ℕ) (prior : List EventPage) (d d' : Data S)
      (cmd : Option Any)
      → IsSound start prior d
      → dispatch reg pack d cmd ≡ (d', ok tt)
      → IsSound start prior d'
  dispatch-replay_again pack start prior d d' cmd h e =
      dispatch-IsSound pack start prior d
        (subst (IsSound start prior) (sym (ensure_state-built d h.set)) h) cmd d' e
