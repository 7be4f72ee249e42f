-- ===== src/Builder/Execution.antt =====
-- The methods of builder.go that hand what a builder builds to its client, and the clients' methods
-- that start a builder. The client that the Go types keep in a field is kept beside the builder here.
pub mod Sent
use angzarr_client_go.Prelude.{String, Option, none, some, List}
use angzarr_client_go.Proto.{EventBook, EventPage, CommandBook, CommandResponse, Query}
use angzarr_client_go.Errors.{Result, ok, err}
use angzarr_client_go.Helpers.Uuid.{UuidLib}
use angzarr_client_go.Client.Rpc.{Requests, Rpc, Action}
use angzarr_client_go.Client.Connection.{CommandHandlerClient, QueryClient, DomainClient}
use angzarr_client_go.Client.Calls.{handle, get_event_book, get_events}
use angzarr_client_go.Builder.{
  CommandBuilder, QueryBuilder, new_command_builder, new_query_builder, build, build_query,
}

module _ {W : Type 0} {requests : Requests} (rpc : Rpc W requests) (lib : UuidLib) where
  -- `CommandBuilder`, with its client.
  pub record CommandCall : Type 0 where
    pub client : CommandHandlerClient rpc
    pub builder : CommandBuilder lib

  -- `QueryBuilder`, with its client.
  pub record QueryCall : Type 0 where
    pub client : QueryClient rpc
    pub builder : QueryBuilder lib

abbrev pub send :
    {W : Type 0} {requests : Requests} {rpc : Rpc W requests}
    → CommandHandlerClient rpc
    → Result CommandBook
    → Action W CommandResponse
send client (err e) world = (err e, world)
send client (ok cmd) world = handle client cmd world

abbrev pub ask : {W A : Type 0} → (Query → Action W A) → Result Query → Action W A
ask answer (err e) world = (err e, world)
ask answer (ok query) world = answer query world

abbrev pub pages_of : {W : Type 0} → Result EventBook × W → Result (List EventPage) × W
pages_of (err e, world) = (err e, world)
pages_of (ok book, world) = (ok book.pages, world)

module _ {W : Type 0} {requests : Requests} {rpc : Rpc W requests} {lib : UuidLib} where
  -- `CommandBuilder.Execute`; `fresh` is the result of `uuid.New()`.
  unfoldable pub execute : CommandCall rpc lib → UuidLib.Uuid lib → Action W CommandResponse
  execute call fresh = send call.client (build call.builder fresh)

  -- `QueryBuilder.GetEventBook`.
  unfoldable pub query_event_book : QueryCall rpc lib → Action W EventBook
  query_event_book call = ask (get_event_book call.client) (build_query call.builder)

  -- `QueryBuilder.GetEvents`.
  unfoldable pub query_events : QueryCall rpc lib → Action W (List EventBook)
  query_events call = ask (get_events call.client) (build_query call.builder)

  -- `QueryBuilder.GetPages`.
  unfoldable pub query_pages : QueryCall rpc lib → Action W (List EventPage)
  unfolding query_event_book
  query_pages call world = pages_of (query_event_book call world)

  -- `CommandHandlerClient.Command`.
  abbrev pub command : CommandHandlerClient rpc → String → UuidLib.Uuid lib → CommandCall rpc lib
  command c domain root = record { client = c; builder = new_command_builder domain (some root) }

  -- `CommandHandlerClient.CommandNew`.
  abbrev pub command_new : CommandHandlerClient rpc → String → CommandCall rpc lib
  command_new c domain = record { client = c; builder = new_command_builder domain none }

  -- `QueryClient.Query`.
  abbrev pub query : QueryClient rpc → String → UuidLib.Uuid lib → QueryCall rpc lib
  query c domain root = record { client = c; builder = new_query_builder domain (some root) }

  -- `QueryClient.QueryDomain`.
  abbrev query_domain : QueryClient rpc → String → QueryCall rpc lib
  query_domain c domain = record { client = c; builder = new_query_builder domain none }

  -- `DomainClient.Command`.
  abbrev domain_command : DomainClient rpc → String → UuidLib.Uuid lib → CommandCall rpc lib
  domain_command c = command c.command_handler

  -- `DomainClient.CommandNew`.
  abbrev domain_command_new : DomainClient rpc → String → CommandCall rpc lib
  domain_command_new c = command_new c.command_handler

  -- `DomainClient.NewQuery`.
  abbrev new_query : DomainClient rpc → String → UuidLib.Uuid lib → QueryCall rpc lib
  new_query c = query c.query

  -- `DomainClient.NewQueryDomain`.
  abbrev new_query_domain : DomainClient rpc → String → QueryCall rpc lib
  new_query_domain c = query_domain c.query
