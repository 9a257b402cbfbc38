-- ===== src/Tablet/Logged.antt =====
-- The operations of a tablet log every write in the list that they are given.
use nvds.Base.{ℕ, zero, suc, Option, none, some}
use nvds.Modification.{ModificationList}
use nvds.Command.{
  Run, ok, assert_failed, out_of_fuel, and_then, Cmd, Allocator, final, ◌>>=◌, ◌>>◌,
  set_modifications,
}
use nvds.Command.Logged.{Logs, Logged, Logged-trans, logs, Logs-stuck}
use nvds.Allocator.Logged.{Logs-alloc, Logs-free}
use nvds.Request.{Request, Response}
use nvds.Tablet.{
  same_key, insert_head, overwrite, put_search, put, add_search, add, get_loop, get, del_loop, del,
}

Logs-same_key : (r : Request) (p : ℕ) → Logs (same_key r p)
unfolding same_key
Logs-same_key r p = search logs depth 8

Logs-insert_head : (r : Request) (slot head : ℕ) → Logs (insert_head r slot head)
unfolding insert_head
Logs-insert_head r slot head = search (logs, Logs-alloc) depth 12

Logs-overwrite : (r : Request) (q p : ℕ) → Logs (overwrite r q p)
unfolding overwrite
Logs-overwrite r q p = search (logs, Logs-alloc, Logs-free) depth 16

Logs-put_search : (k : ℕ) (r : Request) (q p : ℕ) → Logs (put_search k r q p)
unfolding put_search
Logs-put_search zero r q p = Logs-stuck _
Logs-put_search (suc k) r q p =
    let ih = Logs-put_search k r in search (logs, Logs-same_key, ih) depth 10

Logs-add_search : (k : ℕ) (r : Request) (p : ℕ) → Logs (add_search k r p)
unfolding add_search
Logs-add_search zero r p = Logs-stuck _
Logs-add_search (suc k) r p =
    let ih = Logs-add_search k r in search (logs, Logs-same_key, ih) depth 10

Logs-get_loop : (k : ℕ) (resp : Response) (r : Request) (p : ℕ) → Logs (get_loop k resp r p)
unfolding get_loop
Logs-get_loop zero resp r p = Logs-stuck _
Logs-get_loop (suc k) resp r p =
    let ih = Logs-get_loop k resp r in search (logs, Logs-same_key, ih) depth 10

Logs-del_loop : (k : ℕ) (r : Request) (q p : ℕ) → Logs (del_loop k r q p)
unfolding del_loop
Logs-del_loop zero r q p = Logs-stuck _
Logs-del_loop (suc k) r q p =
    let ih = Logs-del_loop k r in search (logs, Logs-same_key, Logs-free, ih) depth 10

Logs-found :
    (r : Request) (slot head : ℕ) (found : Option (ℕ × ℕ))
    → Logs (elim found [ none ↦ insert_head r slot head | some (q, p) ↦ overwrite r q p ])
Logs-found r slot head none = Logs-insert_head r slot head
Logs-found r slot head (some (q, p)) = Logs-overwrite r q p

-- An operation that first sets the list and then logs, run on any state
pub record LogsIn {A : Type 0} (ms : ModificationList) (m : Cmd A) : Type 0 where
  pub apply : (s : Allocator) → Logged (record s { modifications = ms }) (final (m s))

LogsIn-set :
    {A : Type 0} (ms : ModificationList) {m : Cmd A}
    → Logs m
    → LogsIn ms (set_modifications ms >> m)
unfolding set_modifications ◌>>◌
LogsIn-set ms h = record { apply = λ s. h.apply (record s { modifications = ms }) }

pub LogsIn-put : (k : ℕ) (r : Request) (ms : ModificationList) → LogsIn ms (put k r ms)
unfolding put
LogsIn-put k r ms = LogsIn-set ms (search (logs, Logs-put_search, Logs-found) depth 10)

pub LogsIn-add : (k : ℕ) (r : Request) (ms : ModificationList) → LogsIn ms (add k r ms)
unfolding add
LogsIn-add k r ms = LogsIn-set ms (search (logs, Logs-add_search, Logs-insert_head) depth 10)

pub LogsIn-get :
    (k : ℕ) (resp : Response) (r : Request) (ms : ModificationList) → LogsIn ms (get k resp r ms)
unfolding get
LogsIn-get k resp r ms = LogsIn-set ms (search (logs, Logs-get_loop) depth 10)

pub LogsIn-del : (k : ℕ) (r : Request) (ms : ModificationList) → LogsIn ms (del k r ms)
unfolding del
LogsIn-del k r ms = LogsIn-set ms (search (logs, Logs-del_loop) depth 10)

pub LogsIn->>= :
    {A B : Type 0} {ms : ModificationList} {m : Cmd A} {f : A → Cmd B}
    → LogsIn ms m
    → ((a : A) → Logs (f a))
    → LogsIn ms (m >>= f)
unfolding ◌>>=◌
LogsIn->>= {ms} {m} {f} hm hf = record { apply = λ s. go s (m s) (hm.apply s) }
  where
    go :
        (s : Allocator) (r : Run _)
        → Logged (record s { modifications = ms }) (final r)
        → Logged (record s { modifications = ms }) (final (and_then r f))
    go s (ok a t) h = Logged-trans h ((hf a).apply t)
    go s (assert_failed t) h = h
    go s (out_of_fuel t) h = h
