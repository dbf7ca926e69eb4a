-- ===== src/Server/Http/Replies.antt =====
-- What HTTPHandler of pkg/server/http_handler.go reads and writes, and its streams. A request is what the
-- handler reads of it, a missing header the empty text, and `none` a body that cannot be read. What the
-- transport answers to a request, the time, the random bytes and the id of a connection are inputs. The
-- writer can flush. Logging is left out.
use mcp_sdk_go.Base.Text.{Text}
use mcp_sdk_go.Base.Dict.{lookup, insert, remove}
use mcp_sdk_go.Base.{ℕ, false, List, [], ◌∷◌, Option, none, some, if◌then◌else◌}
use mcp_sdk_go.Protocol.Jsonrpc.{Params, absent, new_response, new_error_response}
use mcp_sdk_go.Transport.Dispatch.{Request, Response, internal_error}
use mcp_sdk_go.Server.Http.{HttpHandler, SseConnection}

pub data HttpMethod : Type 0 where
  post get options delete other_method : HttpMethod

pub record HttpRequest : Type 0 where
  pub method : HttpMethod
  pub origin : Text
  pub session_id : Text
  pub accept : Text
  pub last_event_id : Text
  pub body : Option Text

-- What the transport's SendRequest returns.
pub data SendResult : Type 0 where
  sent : Params → SendResult
  send_failed : Text → SendResult

pub record HttpInputs : Type 0 where
  pub now : ℕ
  pub random : Option (List ℕ)
  pub connection_id : Text
  pub transport : Text → Text → SendResult

-- A stream begins with the event that names its connection; the answer to its request, if it has one,
-- is sent on it later.
pub data HttpBody : Type 0 where
  message : HttpBody
  empty_body : HttpBody
  json_body : Response → HttpBody
  stream : Text → Option (Option Response) → HttpBody

-- An empty header is not set.
pub record HttpReply : Type 0 where
  pub status : ℕ
  pub session_header : Text
  pub allow_origin : Text
  pub body : HttpBody

-- What the transport is called with.
pub data TransportCall : Type 0 where
  request_call notification_call : Text → Text → TransportCall

pub record Served : Type 0 where
  pub handler : HttpHandler
  pub reply : HttpReply
  pub calls : List TransportCall

abbrev pub says : ℕ → Text → HttpBody → HttpReply
says status origin body = record {
  status = status;
  session_header = [];
  allow_origin = origin;
  body = body;
}

-- A reply with no effect.
abbrev pub replied : HttpHandler → ℕ → Text → Served
replied h status origin = record { handler = h; reply = says status origin message; calls = [] }

unfoldable pub answer_to : Request → SendResult → Option Response
answer_to r (sent result) = new_response r.id result
answer_to r (send_failed e) = new_error_response r.id internal_error e absent

-- handleRequest and handleRequestWithSessionID, whose session header is that of a new session.
unfoldable pub handle_http_request : HttpHandler → HttpInputs → Text → Text → Request → Served
handle_http_request h at origin session r = record {
  handler = h;
  reply = elim (answer_to r (at.transport r.method r.params)) [
    | none ↦ record {
      status = 500;
      session_header = session;
      allow_origin = origin;
      body = message;
    }
    | some response ↦ record {
      status = 200;
      session_header = session;
      allow_origin = origin;
      body = json_body response;
    }
  ];
  calls = request_call r.method r.params ∷ [];
}

unfoldable pub open_stream : HttpHandler → Text → SseConnection → HttpHandler
open_stream h id connection = record h {
  sse_connections = insert id connection h.sse_connections;
  streams = insert id false h.streams;
}

-- The end of a stream, when its client goes away: `none` is the panic of closing a closed channel.
unfoldable pub end_stream : HttpHandler → Text → Option HttpHandler
end_stream h id = elim (lookup id h.streams) [
  | none ↦ some h
  | some closed ↦
      if closed
      then none
      else some (record h {
        sse_connections = remove id h.sse_connections;
        streams = remove id h.streams;
      })
]

abbrev pub connection_of : HttpRequest → Text → SseConnection
connection_of q session = record { last_event_id = q.last_event_id; session_id = session }

unfoldable pub handle_streaming_request :
    HttpHandler → HttpInputs → HttpRequest → Text → Request → Served
handle_streaming_request h at q session r = record {
  handler = open_stream h at.connection_id (connection_of q session);
  reply = record {
    status = 200;
    session_header = session;
    allow_origin = q.origin;
    body = stream at.connection_id (some (answer_to r (at.transport r.method r.params)));
  };
  calls = request_call r.method r.params ∷ [];
}
