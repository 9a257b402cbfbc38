-- ===== src/Request.antt =====
-- Requests, responses and their status (src/request.h, src/response.h, src/status.h). A `char`
-- array at the end of a struct is the list of its bytes.
use nvds.Base.{◌≡◌}
use nvds.Base.{
  ℕ, ◌+◌, ◌%◌, ◌^◌, Bool, true, false, List, [], ◌++◌, if◌then◌else◌, ltb, length, take, drop,
}

pub data Status : Type 0 where
  ok error no_mem : Status

-- `Request::Type`
pub data Kind : Type 0 where
  put add get del : Kind

abbrev pub is_put : Kind → Bool
is_put Kind.put = true
is_put _ = false

abbrev pub is_add : Kind → Bool
is_add Kind.add = true
is_add _ = false

abbrev pub is_get : Kind → Bool
is_get Kind.get = true
is_get _ = false

abbrev pub is_del : Kind → Bool
is_del Kind.del = true
is_del _ = false

-- `contents` is `data`: the key, then the value
pub record Request : Type 0 where
  pub kind : Kind
  pub key_len : ℕ
  pub val_len : ℕ
  pub key_hash : ℕ
  pub contents : List ℕ

-- `sizeof(Request)`
abbrev pub request_size : ℕ
request_size = 16

-- The constructor. The lengths are `size_t` arguments kept in 16 bits; the bytes at `key` and at
-- `val` are given, so a null `val` is the empty list.
unfoldable pub request : Kind → List ℕ → List ℕ → ℕ → Request
request kind key val key_hash = record {
  kind = kind;
  key_len = length key % 2 ^ 16;
  val_len = length val % 2 ^ 16;
  key_hash = key_hash;
  contents = key ++ (if ltb 0 (length val) then val else []);
}

-- `Len`, `Key` and `Val`: the pointers as the bytes that are read through them
abbrev pub request_len : Request → ℕ
request_len r = request_size + r.key_len + r.val_len

abbrev pub key : Request → List ℕ
key r = take r.key_len r.contents

abbrev pub val : Request → List ℕ
val r = take r.val_len (drop r.key_len r.contents)

pub record Response : Type 0 where
  pub kind : Kind
  pub status : Status
  pub val_len : ℕ
  pub val : List ℕ

-- `sizeof(Response)`
abbrev pub response_size : ℕ
response_size = 4

-- `Response(Request::Type t, Status s)`
abbrev pub response : Kind → Status → Response
response k s = record { kind = k; status = s; val_len = 0; val = [] }

-- `Len`
abbrev pub response_len : Response → ℕ
response_len r = response_size + (if is_get r.kind then r.val_len else 0)

-- A request whose bytes are as many as its lengths say, which the constructor makes.
pub record IsRequest (r : Request) : Type 0 where
  pub sized : length r.contents ≡ r.key_len + r.val_len
