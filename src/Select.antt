-- ===== src/Select.antt =====
-- network/N/pfs_sig_sub.c: the choice of the storage server for an upload, by turns among the
-- servers of a domain; Domains chooses the domain (network/N/pfs_sig_base.c).
pub mod Turns
pub mod Domains
mod Examples
use pfs.Common.{
  ℕ, zero, suc, ◌+◌, Bool, true, false, not, ◌&&◌, Option, none, some, leb, ◌==◌, if◌then◌else◌, ℤ,
  pos, negsuc,
}

-- The fields of `t_pfs_domain` that the choices use; `ips` is the array, of which `ipcount` count.
pub record Domain : Type 0 where
  pub ips : ℕ → ℕ
  pub diskfree : ℕ
  pub taskcount : ℕ
  pub load : ℕ
  pub ipcount : ℕ
  pub index : ℕ

-- The first loop, from `j` on, `n` servers: where it stops, and the server that is online there.
pub first_online : (ℕ → Bool) → (ℕ → ℕ) → ℕ → ℕ → ℕ × Option ℕ
first_online online ips j zero = (j, none)
first_online online ips j (suc n) =
    let rest = first_online online ips (j + 1) n in
    if online (ips j) then (j, some (ips j)) else rest

pub record Chosen : Type 0 where
  pub domain : Domain
  pub sip : Option ℕ
  pub ret : ℤ

-- The server whose turn it is.
pub turn : Bool → Domain → ℕ
turn first_only d = if first_only then 0 else if leb d.ipcount d.index then 0 else d.index

-- `first_only` is get_type_by_name(domain) == 1, `online` that find_ip_stat finds the server, and
-- `sip` is empty at the call.
pub get_valid_ip_4_up : (ℕ → Bool) → Bool → Domain → Chosen
get_valid_ip_4_up online first_only d =
    let i = turn first_only d in
    let f = first_online online d.ips 0 d.ipcount in
    let sip =
      if not first_only && not (f.0 == i)
      then (if online (d.ips i) then some (d.ips i) else f.1)
      else f.1 in
    record {
      domain = record d { index = if first_only then i else i + 1 };
      sip = sip;
      ret = elim sip [ none ↦ negsuc 0 | some ip ↦ pos 0 ];
    }
