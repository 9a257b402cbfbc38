-- ===== src/Client/Answer.antt =====
-- From the client's call to the tablet and back: what the server is sent, and what `Get` answers.
use nvds.Base.{
  ℕ, suc, ◌+◌, ◌-◌, ◌%◌, ◌^◌, ◌≤◌, ◌<◌, ◌≡◌, refl, ap, arith, true, Option, none, some, List, [],
  ◌∷◌, ◌++◌, length, length-append, leb, ltb, ◌==◌, if◌then◌else◌, take, drop, ◌*◌, add32,
}
use nvds.Nvm.{get32}
use nvds.Command.{Allocator, ok, pure, ◌>>=◌}
use nvds.Index.{
  Address, IndexManager, num_servers, get_server, get_server_id, get_tablet_id, worker_of,
}
use nvds.Index.Topology.{IsCluster}
use nvds.Index.Route.{cluster-IsRouted}
use nvds.Request.{
  Kind, Status, Request, IsRequest, request, request_len, key, val, Response, response,
  response_len,
}
use nvds.Tablet.{slot_of, object_size}
use nvds.Allocator.{roundup_block_size, max_block_size}
use nvds.Allocator.Sizes.{roundup_block_size-least}
use nvds.Tablet.Chain.{Entry, Chain, lookup}
use nvds.Tablet.Lookup.{answer, logging, get-lookup}
use nvds.Server.{operate, serve_request}
use nvds.Client.{
  Client, Fabric, done, max_item_size, client_send_buf_size, client_recv_buf_size,
  server_send_buf_size, server_recv_buf_size, ib_ud_padding, allocate, request_and_wait, client_get,
}

take-append : (xs ys : List ℕ) → take (length xs) (xs ++ ys) ≡ xs
take-append [] ys = refl
take-append (x ∷ xs) ys = ap (λ zs. x ∷ zs) (take-append xs ys)

drop-append : (xs ys : List ℕ) → drop (length xs) (xs ++ ys) ≡ ys
drop-append [] ys = refl
drop-append (x ∷ xs) ys = drop-append xs ys

take-length : (xs : List ℕ) → take (length xs) xs ≡ xs
take-length [] = refl
take-length (x ∷ xs) = ap (λ zs. x ∷ zs) (take-length xs)

present : (v : List ℕ) → (if ltb 0 (length v) then v else []) ≡ v
present [] = refl
present (x ∷ xs) =
    let some_byte : ltb 0 (suc (length xs)) ≡ true = ground arith in rw some_byte refl

-- A request for an item of at most 1024 bytes is well formed, and the server reads from it the key
-- and the value that the client was given.
pub request-round_trip :
    (kind : Kind) (k v : List ℕ) (hash : ℕ)
    → length k + length v ≤ max_item_size
    → let r = request kind k v hash in IsRequest r × (key r ≡ k) × (val r ≡ v)
unfolding request
request-round_trip kind k v hash h =
    let kl : length k % 2 ^ 16 ≡ length k = omega arith in
    let vl : length v % 2 ^ 16 ≡ length v = omega arith in
    (
      record { sized = rw (kl, vl, present v) (length-append k v) },
      rw kl (take-append k _),
      rw (kl, vl, present v, drop-append k v) (take-length v),
    )

-- The answer of `Get`: the value, or the empty string
abbrev pub or_empty : Option (List ℕ) → List ℕ
or_empty none = []
or_empty (some v) = v

abbrev get_response : Option (List ℕ) → Response
get_response found =
    let a = answer (response Kind.get Status.ok) found in record a.1 { status = a.0 }

serve_get :
    (rounds : ℕ) (k : List ℕ) (hash : ℕ) (es : List Entry) (s : Allocator)
    → length k ≤ max_item_size
    → Chain s.memory (get32 s.memory (slot_of (request Kind.get k [] hash))) es
    → length es < rounds
    → serve_request rounds (request Kind.get k [] hash) s
      ≡ ok (get_response (lookup k es)) (logging s [])
unfolding serve_request operate ◌>>=◌ pure request
serve_get rounds k hash es s small c h =
    let sent = request-round_trip Kind.get k [] hash (omega arith) in
    rw
      (
        get-lookup rounds (response Kind.get Status.ok) (request Kind.get k [] hash) [] es s sent.0
            refl c h,
        sent.1,
      )
      (answer_of (lookup k es))
  where
    answer_of :
        (found : Option (List ℕ))
        → pure
            (let a = answer (response Kind.get Status.ok) found in record a.1 { status = a.0 })
            (logging s [])
          ≡ ok (get_response found) (logging s [])
    answer_of found = refl

get_response-val : (found : Option (List ℕ)) → (get_response found).val ≡ or_empty found
get_response-val none = refl
get_response-val (some v) = refl

-- The fabric posts without error, and the buffer that is completed is the one that was posted. A
-- request that is sent to the address of a server of the index `im` is answered from the tablet
-- that this server has at the place of the worker it dispatches to; the tablet of number `n` is in
-- the state `tablets n`.
pub record Serves (f : Fabric) (rounds : ℕ) (im : IndexManager) (tablets : ℕ → Allocator)
    : Type 0 where
  pub received : (rb : ℕ) → f.post_receive rb ≡ 0
  pub sent : (a : Address) (r : Request) → f.post_send a r ≡ 0
  pub answered :
      (rb j : ℕ) (r : Request) (resp : Response) (s' : Allocator)
      → j < num_servers
      → serve_request rounds r (tablets ((im.servers j).tablets (worker_of im r.key_hash)))
        ≡ ok resp s'
      → f.receive rb (im.servers j).ib_addr r ≡ (rb, resp)

-- `Get` of a key of at most 1024 bytes, whose hash is less than `2 ^ 64 - 1024`, by a client that has
-- free buffers and the index of a cluster, over a fabric on which each server answers from its own
-- tablets: where the bucket of the key in the tablet that the index names for its hash holds the
-- entries `es`, it returns the value that the abstract map has for the key, or the empty string if
-- it has none, and leaves the client as it was.
pub client_get-lookup :
    (f : Fabric) (rounds : ℕ) (tablets : ℕ → Allocator) (k : List ℕ) (es : List Entry) (sb rb : ℕ)
    (sbs rbs : List ℕ) (im : IndexManager)
    → length k ≤ max_item_size
    → IsCluster im
    → f.hash k < 2 ^ 64 - 1024
    → let m = (tablets (get_tablet_id im (f.hash k))).memory in
      Chain m (get32 m (slot_of (request Kind.get k [] (f.hash k)))) es
      → length es < rounds
      → Serves f rounds im tablets
      → let c : Client = record {
        send_bufs = sb ∷ sbs;
        recv_bufs = rb ∷ rbs;
        index_manager = im;
      } in
        client_get f k c ≡ done (or_empty (lookup k es)) c
unfolding client_get request_and_wait allocate request
client_get-lookup f rounds tablets k es sb rb sbs rbs im small cluster low c h w =
    let hash = f.hash k in
    let fits : leb (length k + 0) max_item_size ≡ true = ground arith in
    let route = cluster-IsRouted im hash cluster low in
    let named : ((get_server im hash).id == get_server_id im hash) ≡ true =
      ground (arith, route.named) in
    let served : serve_request rounds (request Kind.get k [] hash)
          (tablets ((get_server im hash).tablets (worker_of im hash)))
        ≡ ok (get_response (lookup k es)) (logging (tablets (get_tablet_id im hash)) []) =
      rw route.tablet (serve_get rounds k hash es (tablets (get_tablet_id im hash)) small c h) in
    let got =
      w.answered rb (get_server_id im hash) (request Kind.get k [] hash) _ _ route.in_range
        served in
    let same : (rb == rb) ≡ true = ground arith in
    rw
      (
        fits,
        named,
        w.received rb,
        w.sent (get_server im hash).ib_addr (request Kind.get k [] hash),
        got,
        same,
        get_response-val (lookup k es),
      )
      refl

-- An item of at most 1024 bytes fits everywhere on its way: the request into the client's buffer and,
-- behind the padding, into the server's; the object that `Put` and `Add` allocate for it into a block
-- of at most the largest size, so that `RoundupBlockSize` does not fail; and a response with a value
-- as long into the server's buffer and, behind the padding, into the client's.
pub item-fits :
    (kind : Kind) (k v : List ℕ) (hash : ℕ) (resp : Response) (s : Allocator)
    → length k + length v ≤ max_item_size
    → resp.val_len ≤ max_item_size
    → let r = request kind k v hash in
      (request_len r ≤ client_send_buf_size)
      × (ib_ud_padding + request_len r ≤ server_recv_buf_size)
      × (response_len resp ≤ server_send_buf_size)
      × (ib_ud_padding + response_len resp ≤ client_recv_buf_size)
      × ((m : ℕ) × (roundup_block_size (add32 (object_size + r.key_len + r.val_len) 4) s
            ≡ ok (16 * m) s)
          × (16 * m ≤ max_block_size))
unfolding request
item-fits kind k v hash resp s h hv =
    let n = add32 (object_size + length k % 2 ^ 16 + length v % 2 ^ 16) 4 in
    let fits : n ≤ max_block_size = omega arith in
    let block = (roundup_block_size-least n s).0 fits in
    let less : 16 * block.0 < n + 16 = block.3 in
    (omega arith, omega arith, ground arith, ground arith, (block.0, block.1, omega arith))
