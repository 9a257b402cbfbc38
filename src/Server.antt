-- ===== src/Server.antt =====
-- A worker of the server (`Server::Worker::Serve` of src/server.cc) and the queue that it is fed by.
pub mod Flow
pub mod Join
pub mod Create
pub mod Replicated
use nvds.Base.{ℕ, List}
use nvds.Modification.{ModificationList}
use nvds.Command.{Cmd, pure, ◌>>=◌}
use nvds.Request.{Status, Kind, Request, Response, response}
use nvds.Tablet.{put, add, get, del}

-- The `switch`: the operation of the request, and the response with its status
unfoldable pub operate : Kind → ℕ → Response → Request → ModificationList → Cmd Response
operate Kind.put rounds resp r ms = do st ← put rounds r ms; pure (record resp { status = st })
operate Kind.add rounds resp r ms = do st ← add rounds r ms; pure (record resp { status = st })
operate Kind.del rounds resp r ms = do st ← del rounds r ms; pure (record resp { status = st })
operate Kind.get rounds resp r ms = do
  (st, resp') ← get rounds resp r ms
  pure (record resp' { status = st })

-- The body of the loop from the request to the response; `modifications` is cleared first.
unfoldable pub serve_request : ℕ → Request → Cmd Response
serve_request rounds r = operate r.kind rounds (response r.kind Status.ok) r List.[]
