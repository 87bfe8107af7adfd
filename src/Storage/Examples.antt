-- ===== src/Storage/Examples.antt =====
-- A finished task of network/S, and a domain of three servers: the own one, one with a connection,
-- and one that is away.
use pfs.Common.{ℕ, ◌≡◌, refl, true, false, List, [], ◌∷◌, ◌==◌, if◌then◌else◌, pos, arith}
use pfs.Task.{Tasks, Env}
use pfs.Task.Types.{Tasklist, zero_base, zero_sub, task_q_unknown, task_q_wait_sync}
use pfs.Task.Invariant.{IsValid, Owned}
use pfs.Storage.{Peer, Member, Storage, Sys, sync_task_2_domain}
use pfs.Storage.Effects.{Spread}
use pfs.Storage.Spread.{asked, away, sync_task_2_domain-Spread}

abbrev finished : Tasklist
finished = record {
  base = record zero_base { filename = 47 ∷ 102 ∷ [] };
  sub = zero_sub;
  last = pos 1;
  status = task_q_unknown;
}

-- Task 0 was taken, and task 1 waits for a server already.
abbrev one_taken : Tasks
one_taken = record {
  queue = λ q. if q == task_q_wait_sync then 1 ∷ [] else [];
  taskcount = λ q. if q == task_q_wait_sync then pos 1 else pos 0;
  tasks = λ t. record finished { status = if t == 1 then task_q_wait_sync else task_q_unknown };
  fresh = 2;
}

one_taken-IsValid : IsValid (λ q. 0) one_taken
one_taken-IsValid = record {
  once = λ q t. ground arith;
  known = λ q t h. ground arith;
  counted = λ q. ground arith;
}

one_taken-Owned : Owned 0 one_taken
one_taken-Owned = record { exists = omega arith; unqueued = λ q. ground arith }

abbrev one_store : Storage
one_store = record { tasks = one_taken; sent = [] }

abbrev free : Env
free = record { lock = 0; now = 1000; malloc_ok = true; memory = finished }

abbrev both_free : Sys
both_free = record { home = free; put = free }

abbrev three_servers : List (Member × Sys)
three_servers =
    (record { ip = 1; offline = false }, both_free)
    ∷ (record { ip = 2; offline = false }, both_free)
    ∷ (record { ip = 3; offline = false }, both_free)
    ∷ []

abbrev connections : ℕ → List Peer
connections i = if i == 2 then record { fd = 9; ip = 2 } ∷ [] else []

abbrev one_byte : ℕ → List ℕ
one_byte ip = ip ∷ []

second_asked : asked connections 1 three_servers ≡ 9 ∷ []
second_asked = refl

third_away : away connections 1 three_servers ≡ 3 ∷ []
third_away = refl

sync_task_2_domain-Spread_example :
    Spread
      (λ q. 0)
      one_byte
      0
      (asked connections 1 three_servers)
      (away connections 1 three_servers)
      one_store
      (sync_task_2_domain one_byte connections 1 0 three_servers one_store)
sync_task_2_domain-Spread_example =
    sync_task_2_domain-Spread (λ q. 0) one_byte 0 connections 1 three_servers one_store
      (refl, refl, refl, (refl, refl, refl, (refl, refl, refl, tt))) one_taken-IsValid
      one_taken-Owned
