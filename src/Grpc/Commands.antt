-- ===== src/Grpc/Commands.antt =====
-- `CommandHandlerGrpc` and `OOCommandHandlerGrpc` of handler.go, with the routers behind them.
use angzarr_client_go.Prelude.{
  ◌^◌, ◌<◌, ◌⧺◌, String, Option, none, some, false, ◌≡◌, ◌≢◌, refl, ap, ◌∙◌, sym, lookup, head?,
}
use angzarr_client_go.Proto.{
  Any, CommandBook, ContextualCommand, BusinessResponse, Snapshot, ReplayRequest,
}
use angzarr_client_go.Errors.{
  Error, Code, Result, ok, err, status, failed_precondition, as_rejected, ◌>>=◌,
}
use angzarr_client_go.Codec.{Codec}
use angzarr_client_go.Compensation.{command_of}
use angzarr_client_go.Helpers.TypeUrl.{type_url_prefix, notification_type_name, is_notification}
use angzarr_client_go.Helpers.Books.{next_sequence}
use angzarr_client_go.Router.State.{StateRouter, to_rebuilder, with_events, with_event_book}
use angzarr_client_go.Router.Command.{CommandHandler}
use angzarr_client_go.Router.Command.Dispatch.{Carries, dispatch_registered}
use angzarr_client_go.Aggregate
use angzarr_client_go.Aggregate.{Data, Registry, book_or_empty, init_data}
use angzarr_client_go.Aggregate.Replay.{IsSound}
use angzarr_client_go.Aggregate.Requests.{handle-replay}
use angzarr_client_go.Grpc.{
  CommandHandlerGrpc, respond, status_of, dispatch, pack_or_internal, replay_with, replay,
  oo_dispatch, oo_dispatch_book,
}

-- When the handler that a request's command is registered for gives an error whose chain holds a
-- rejection, the service answers with a failed precondition and the rejection's message. The
-- rejection's own status code has no say in it.
pub dispatch-rejection :
    {S : Type 0} (status_text : Code → String → String) (codec : Codec) (h : CommandHandlerGrpc S)
    (cmd : ContextualCommand) (book : CommandBook) (command : Any) (name : String)
    (handler : CommandHandler S) (e : Error) (message : String)
    → Carries cmd book command
    → command.type_url ≡ type_url_prefix ⧺ name
    → name ≢ notification_type_name
    → lookup name h.router.handlers ≡ some handler
    → handler book command (h.router.rebuild cmd.events) (next_sequence cmd.events) ≡ err e
    → as_rejected e ≡ some message
    → dispatch status_text codec h (some cmd) ≡ err (status failed_precondition message)
unfolding dispatch
dispatch-rejection status_text codec h cmd book command name handler e message carried url other
      found fails rejects =
    ap (respond status_text) (
      dispatch_registered codec h.router cmd book command name handler carried url other found
      ∙ ap (λ r. r >>= λ events. ok (some (BusinessResponse.events events))) fails)
    ∙ ap (λ o. err (status_of status_text e o)) rejects

-- With a rebuilder made of a state router and with a packer, `Replay` packs the state that the
-- request's events alone give: the base snapshot that they build on has no part in it.
replay-with_events :
    {S : Type 0} (status_text : Code → String → String) (states : StateRouter S)
    (h : CommandHandlerGrpc S) (packer : S → Result Any) (req : ReplayRequest) (state : Any)
    → h.router.rebuild ≡ to_rebuilder states
    → h.state_packer ≡ some packer
    → packer (with_events states req.events) ≡ ok state
    → (snapshot : Option Snapshot)
    → replay status_text h (record req { base_snapshot = snapshot }) ≡ ok state
unfolding replay with_event_book
replay-with_events status_text states h packer req state rebuilder packs packed snapshot =
    ap (replay_with status_text h.router (record req { base_snapshot = snapshot })) packs
    ∙ ap
        (λ rebuild. pack_or_internal status_text (
          packer (
            rebuild (
              some (record {
                cover = none;
                pages = req.events;
                snapshot = snapshot;
                next_sequence = 0;
              })))))
        rebuilder
    ∙ ap (pack_or_internal status_text) packed

-- When the prior book's next sequence is below 2^32, an answer of `OOCommandHandlerGrpc` without an
-- error to a command other than a notification holds the event book of the instance, whose pages
-- are the newly recorded events, numbered on from that sequence modulo 2^32; and the instance's
-- state is the replay of the prior events and the new ones.
pub oo_dispatch-replay :
    {S M : Type 0} (status_text : Code → String → String) (codec : Codec) (reg : Registry S M)
    (pack : M → Result Any) (req : ContextualCommand) (book : CommandBook) (cmd : Any)
    (resp : Option BusinessResponse)
    → req.command ≡ some book
    → command_of (head? book.pages) ≡ some cmd
    → is_notification cmd.type_url ≡ false
    → (book_or_empty req.events).next_sequence < 2 ^ 32
    → oo_dispatch status_text codec reg pack (some req) ≡ ok resp
    → (d : Data S) × ((Aggregate.handle reg pack codec (init_data req.events) book).0 ≡ d)
      × (resp ≡ some (BusinessResponse.events (some d.event_book)))
      × IsSound reg
          ((book_or_empty req.events).next_sequence)
          (((book_or_empty req.events).pages))
          d
unfolding oo_dispatch
oo_dispatch-replay status_text codec reg pack req book cmd resp given carried other small answered =
    go (Aggregate.handle reg pack codec (init_data req.events) book) refl
      (sym (ap (oo_dispatch_book status_text codec reg pack req.events) given) ∙ answered)
  where
    go :
        (r : Data _ × Result (Option BusinessResponse))
        → Aggregate.handle reg pack codec (init_data req.events) book ≡ r
        → respond status_text r.1 ≡ ok resp
        → (d : Data _) × ((Aggregate.handle reg pack codec (init_data req.events) book).0 ≡ d)
          × (resp ≡ some (BusinessResponse.events (some d.event_book)))
          × IsSound reg (book_or_empty req.events).next_sequence (book_or_empty req.events).pages d
    go (d, err e) handled same = absurd (cc same)
    go (d, ok resp') handled same =
        let replayed =
          handle-replay reg pack codec (init_data req.events) d book cmd resp' refl small carried
            other handled in
        (d, ap (λ r. r.0) handled, cc (same, replayed.0), replayed.1)
