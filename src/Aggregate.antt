-- ===== src/Aggregate.antt =====
-- aggregate_oo.go: `CommandHandlerBase`. What its methods change is `Data`; what `Init` and the
-- registration methods fill in is `Registry`. `Init` replaces a nil event book by an empty one and
-- nothing sets it to nil later, so the book is no `Option` and the tests for nil are gone.
-- Command handlers read the data; they do not write to the state behind the base's back.
-- The maps list their entries in the order in which a range meets them.
pub mod Replay
pub mod Existence
pub mod Requests
use angzarr_client_go.Prelude.{
  ℕ, ◌+◌, String, ◌⧺◌, Option, none, some, Bool, true, false, ◌&&◌, not, List, [], ◌∷◌, ◌++◌, map,
  str_eq, if◌then◌else◌, GoMap, lookup, insert, is_empty, head?,
}
use angzarr_client_go.Proto.{
  Bytes, Any, EventPage, EventBook, CommandBook, Notification, RejectionNotification,
  BusinessResponse, empty_event_book, sequence_header,
}
use angzarr_client_go.Errors.{Error, Result, ok, err, plain, ◌>>=◌}
use angzarr_client_go.Codec.{Codec}
use angzarr_client_go.Helpers.TypeUrl.{match_type, is_notification}
use angzarr_client_go.Helpers.Books.{u32}
use angzarr_client_go.Compensation.{command_of, dispatch_key, rejection_key, delegate_to_framework}
use angzarr_client_go.Router.Command.{
  no_command_pages, unknown_command, no_compensation, wrap_error, decode_rejection,
}
use angzarr_client_go.Router.State.{apply_decoded}

pub record Data (S : Type 0) : Type 0 where
  pub event_book : EventBook
  pub state : Option S
  pub state_set : Bool
  pub next_seq : ℕ

-- `handlerFunc`, `multiHandlerFunc`, `applierFunc` and `rejectionHandlerFunc`. Event messages are
-- interface values, which may be nil.
pub record Registry (S M : Type 0) : Type 0 where
  pub factory : S
  pub handlers : GoMap (Data S → Any → Result (Option M))
  pub multi_handlers : GoMap (Data S → Any → Result (List (Option M)))
  pub appliers : GoMap (S → Bytes → S)
  pub rejection_handlers : GoMap (Data S → Notification → Data S × Option BusinessResponse)
  pub domain : String

-- `Init`.
abbrev pub book_or_empty : Option EventBook → EventBook
book_or_empty none = empty_event_book
book_or_empty (some book) = book

abbrev pub init_data : {S : Type 0} → Option EventBook → Data S
init_data book = record {
  event_book = book_or_empty book;
  state = none;
  state_set = false;
  next_seq = 0;
}

-- The wrapper that `Handles` and `HandlesMulti` make: a command that does not decode is an error.
abbrev decode_then :
    {S C R : Type 0} → (Any → Result C) → (Data S → C → Result R) → Data S → Any → Result R
decode_then unmarshal_to handler d cmd =
    wrap_error "failed to unmarshal command: " (unmarshal_to cmd) >>= λ c. handler d c

abbrev apply_matched : {S : Type 0} → S → Any → Option (S → Bytes → S) → S
apply_matched state event none = state
apply_matched state event (some applier) = applier state event.value

abbrev new_page : ℕ → Any → EventPage
new_page seq event = record {
  header = some (sequence_header seq);
  event = some event;
  created_at = none;
}

module _ {S M : Type 0} where
  -- `Init`.
  abbrev pub init_registry : S → Registry S M
  init_registry factory = record {
    factory = factory;
    handlers = [];
    multi_handlers = [];
    appliers = [];
    rejection_handlers = [];
    domain = "";
  }

  -- `SetDomain`.
  abbrev set_domain : Registry S M → String → Registry S M
  set_domain reg domain = record reg { domain = domain }

  -- `Handles`; reflection gives the command type's full name and decoder.
  abbrev pub handles :
      {C : Type 0}
      → Registry S M
      → String
      → (Any → Result C)
      → (Data S → C → Result (Option M))
      → Registry S M
  handles reg full_name unmarshal_to handler = record reg {
    handlers = insert full_name (decode_then unmarshal_to handler) reg.handlers;
  }

  -- `HandlesMulti`.
  abbrev pub handles_multi :
      {C : Type 0}
      → Registry S M
      → String
      → (Any → Result C)
      → (Data S → C → Result (List (Option M)))
      → Registry S M
  handles_multi reg full_name unmarshal_to handler = record reg {
    multi_handlers = insert full_name (decode_then unmarshal_to handler) reg.multi_handlers;
  }

  -- `HandlesRejection`.
  abbrev handles_rejection :
      Registry S M
      → (domain command : String) → (Data S → Notification → Data S × Option BusinessResponse)
      → Registry S M
  handles_rejection reg domain command handler = record reg {
    rejection_handlers = insert (rejection_key domain command) handler reg.rejection_handlers;
  }

  -- `Applies`.
  abbrev pub applies :
      {E : Type 0} → Registry S M → String → (Bytes → Result E) → (S → E → S) → Registry S M
  applies reg full_name unmarshal applier = record reg {
    appliers =
        insert full_name (λ state value. apply_decoded applier state (unmarshal value))
          reg.appliers;
  }

  -- `HandlerTypes`, in the order of the ranges.
  abbrev pub handler_types : Registry S M → List String
  handler_types reg = map (λ e. e.0) reg.handlers ++ map (λ e. e.0) reg.multi_handlers

  -- `applyEvent`.
  abbrev apply_event : Registry S M → S → Any → S
  apply_event reg state event = apply_matched state event (match_type event.type_url reg.appliers)

  abbrev apply_payload : Registry S M → S → Option Any → S
  apply_payload reg state none = state
  apply_payload reg state (some event) = apply_event reg state event

  -- The loop of `rebuild`.
  pub apply_pages : Registry S M → S → List EventPage → S
  apply_pages reg state [] = state
  apply_pages reg state (page ∷ pages) = apply_pages reg (apply_payload reg state page.event) pages

  -- `rebuild`.
  pub rebuild : Registry S M → Data S → Data S
  unfolding apply_pages
  rebuild reg d = record {
    event_book = record d.event_book { pages = [] };
    state = some (apply_pages reg reg.factory d.event_book.pages);
    state_set = true;
    next_seq = d.event_book.next_sequence;
  }

  -- `State`: the data after the call, whose `state` is the result.
  pub ensure_state : Registry S M → Data S → Data S
  unfolding rebuild
  ensure_state reg d = if d.state_set then d else rebuild reg d

  -- `Exists`.
  pub exists : Registry S M → Data S → Data S × Bool
  unfolding ensure_state
  exists reg d =
      let d' = ensure_state reg d in (d', d'.state_set && not (is_empty d'.event_book.pages))

  abbrev apply_cached : Registry S M → Any → Option S → Option S
  apply_cached reg event none = none
  apply_cached reg event (some state) = some (apply_event reg state event)

  abbrev record_packed : Registry S M → Data S → Result Any → Data S
  record_packed reg d (err e) = d
  record_packed reg d (ok event) = record {
    event_book = record d.event_book {
      pages = d.event_book.pages ++ new_page d.next_seq event ∷ [];
    };
    state = apply_cached reg event d.state;
    state_set = d.state_set;
    next_seq = u32 (d.next_seq + 1);
  }

  -- `pack` is `anypb.New`.
  module _ (reg : Registry S M) (pack : M → Result Any) where
    -- `applyAndRecord`.
    abbrev apply_and_record : Data S → M → Data S
    apply_and_record d event = record_packed reg d (pack event)

    abbrev record_event : Data S → Option M → Data S
    record_event d none = d
    record_event d (some event) = apply_and_record d event

    -- The loop over the events of a multi-event handler.
    record_events : Data S → List (Option M) → Data S
    record_events d [] = d
    record_events d (event ∷ events) = record_events (record_event d event) events

    abbrev finish_single : Data S → Result (Option M) → Data S × Result (Unit {0})
    finish_single d (err e) = (d, err e)
    finish_single d (ok event) = (record_event d event, ok tt)

    abbrev finish_multi : Data S → Result (List (Option M)) → Data S × Result (Unit {0})
    finish_multi d (err e) = (d, err e)
    finish_multi d (ok events) = (record_events d events, ok tt)

    abbrev run_multi :
        Data S → Any → Option (Data S → Any → Result (List (Option M))) → Data S × Result (Unit {0})
    run_multi d cmd none = (d, err (unknown_command cmd.type_url))
    run_multi d cmd (some handler) =
        finish_multi (ensure_state reg d) (handler (ensure_state reg d) cmd)

    abbrev run_single :
        Data S → Any → Option (Data S → Any → Result (Option M)) → Data S × Result (Unit {0})
    run_single d cmd none = run_multi d cmd (match_type cmd.type_url reg.multi_handlers)
    run_single d cmd (some handler) =
        finish_single (ensure_state reg d) (handler (ensure_state reg d) cmd)

    -- `Dispatch`: the data after the call, and its error.
    unfoldable pub dispatch : Data S → Option Any → Data S × Result (Unit {0})
    unfolding ensure_state record_events
    dispatch d none = (d, err (plain "no command provided"))
    dispatch d (some cmd) =
        if str_eq cmd.type_url ""
        then (d, err (plain "no command provided"))
        else run_single d cmd (match_type cmd.type_url reg.handlers)

    abbrev respond :
        Data S
        → Notification
        → String
        → Option (Data S → Notification → Data S × Option BusinessResponse)
        → Data S × Result (Option BusinessResponse)
    respond d notification key none =
        (d, ok (some (delegate_to_framework (no_compensation reg.domain key))))
    respond d notification key (some handler) =
        let (d', response) = handler (ensure_state reg d) notification in (d', ok response)

    abbrev respond_to :
        Data S
        → Notification
        → Result RejectionNotification
        → Data S × Result (Option BusinessResponse)
    respond_to d notification (err e) = (d, err e)
    respond_to d notification (ok rejection) =
        let key = rejection_key (dispatch_key rejection).0 (dispatch_key rejection).1 in
        respond d notification key (lookup key reg.rejection_handlers)

    abbrev respond_decoded :
        Codec → Data S → Result Notification → Data S × Result (Option BusinessResponse)
    respond_decoded codec d (err e) = (d, err e)
    respond_decoded codec d (ok notification) =
        respond_to d notification (decode_rejection codec notification.payload)

    -- `dispatchRejection`.
    pub dispatch_rejection : Codec → Data S → Any → Data S × Result (Option BusinessResponse)
    unfolding ensure_state
    dispatch_rejection codec d cmd =
        respond_decoded codec d
          (wrap_error "failed to unmarshal Notification: " (codec.unmarshal_to_notification cmd))

    abbrev events_response : Data S × Result (Unit {0}) → Data S × Result (Option BusinessResponse)
    events_response (d, err e) = (d, err e)
    events_response (d, ok done) = (d, ok (some (BusinessResponse.events (some d.event_book))))

    abbrev handle_command : Codec → Data S → Option Any → Data S × Result (Option BusinessResponse)
    handle_command codec d none = (d, err no_command_pages)
    handle_command codec d (some cmd) =
        if str_eq cmd.type_url ""
        then (d, err no_command_pages)
        else if is_notification cmd.type_url
        then dispatch_rejection codec d cmd
        else events_response (dispatch d (some cmd))

    -- `Handle`, on the request's command book: on a nil one it would panic, and
    -- `OOCommandHandlerGrpc` calls it with none such.
    unfoldable pub handle : Codec → Data S → CommandBook → Data S × Result (Option BusinessResponse)
    unfolding dispatch dispatch_rejection
    handle codec d book = handle_command codec d (command_of (head? book.pages))
