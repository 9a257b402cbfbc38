-- ===== src/Tests/Pairs.antt =====
-- Queue pairs that are their states and their peers' numbers.
use nvds.Base.{ℕ, ◌≡◌, refl, arith, true, [], ap, ◌==◌, if◌then◌else◌, Bool-cases, inl, inr}
use nvds.QueuePair.{
  QueuePair, QpVerbs, IsQpVerbs, Works, origin, QpType, QpState, Modify, to_init, activate_rtr,
  activate_rts, connect_rtr, connect_rts, target, done,
}
use nvds.Index.{calc_tablet_id, add_server, add_tablet, for_below, master}
use nvds.Index.Topology.{IsCluster, cluster-IsCluster}
use nvds.Tablet.Connect.{Linked, settingup_qp_connect}
use nvds.Tablet.Connect.Paired.{IsFresh, IsConnected, settingup-Paired}
use nvds.Tests.Cluster.{two_servers, no_tablet, no_server, no_address, no_qpi}

abbrev dest : Modify → ℕ → ℕ
dest (to_init t) n = n
dest activate_rtr n = n
dest (activate_rts psn) n = n
dest (connect_rtr qpn psn lid) n = qpn
dest (connect_rts psn) n = n

abbrev pub code : QpState → ℕ
code QpState.reset = 0
code QpState.init = 1
code QpState.rtr = 2
code QpState.rts = 3
code QpState.sqd = 4
code QpState.sqe = 5
code QpState.err = 6

-- A modification succeeds in the state before it, and else ends with `EINVAL`.
abbrev pub modified : Modify → QpState × ℕ → ℕ × (QpState × ℕ)
modified c q = if code q.0 == code (origin c) then (0, (target c, dest c q.1)) else (22, q)

abbrev pub verbs : QpVerbs
verbs = record {
  Qp = QpState × ℕ;
  modify = modified;
  query_state = λ q. (0, q.0);
  query_dest = λ q. (0, q.1);
}

-- What succeeds was made in the state before it.
modified-done :
    (c : Modify) (q : QpState × ℕ)
    → (modified c q).0 ≡ 0
    → modified c q ≡ (0, (target c, dest c q.1))
modified-done c q h = elim (Bool-cases (code q.0 == code (origin c))) [
  | inl same ↦ rw same refl
  | inr other ↦ absurd (omega (arith, rw other at h))
]

pub verbs-IsQpVerbs : IsQpVerbs verbs
verbs-IsQpVerbs = record {
  state_of = λ c q h. rw (modified-done c q h) refl;
  dest_of = λ qpn psn lid q h. rw (modified-done (connect_rtr qpn psn lid) q h) refl;
  dest_kept = λ psn q h. rw (modified-done (connect_rts psn) q h) refl;
}

pub verbs-Works : Works verbs
verbs-Works c q h =
    let at : q.0 ≡ origin c = ap (λ r. r.1) h in
    let same : (code q.0 == code (origin c)) ≡ true = rw at (ground arith) in rw same refl

abbrev pub linked : Linked verbs
linked = record {
  info = no_tablet;
  qps = λ i. record { type = QpType.rc; qp = (QpState.init, 0); scq = 5; rcq = 6; psn = 33 };
  allocator = record { base = 0; cnt_writes = 0; modifications = []; memory = λ x. 0 };
}

pub linked-IsFresh : IsFresh verbs verbs-IsQpVerbs verbs-Works (linked.qps 0)
linked-IsFresh = record { type = refl; state = refl }

backup_one : (two_servers.tablets 1).is_backup ≡ true
unfolding add_server add_tablet for_below calc_tablet_id
backup_one = refl

two-IsCluster : IsCluster two_servers
two-IsCluster =
    cluster-IsCluster (λ _. 0) (λ _. no_tablet) (λ _. no_server) [] [] no_address no_address
      (λ _. no_qpi) (λ _. no_qpi)

settingup-Paired_example :
    let m = master (two_servers.tablets 1) in
    (t' : Linked verbs) × (u' : Linked verbs) × (settingup_qp_connect verbs 1 two_servers linked
      ≡ done t')
    × (settingup_qp_connect verbs m two_servers linked ≡ done u')
    × IsConnected verbs verbs-IsQpVerbs verbs-Works QpState.rtr
        ((two_servers.tablets m).qpis 0).qpn
        (t'.qps 0)
    × IsConnected verbs verbs-IsQpVerbs verbs-Works QpState.rts
        ((two_servers.tablets 1).qpis 0).qpn
        (u'.qps 0)
settingup-Paired_example =
    settingup-Paired verbs verbs-IsQpVerbs verbs-Works two_servers 1 linked linked two-IsCluster
      (omega arith) backup_one linked-IsFresh linked-IsFresh

abbrev datagram : QueuePair verbs
datagram = record { type = QpType.ud; qp = (QpState.init, 0); scq = 5; rcq = 6; psn = 33 }
