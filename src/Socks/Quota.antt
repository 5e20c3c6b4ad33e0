-- ===== src/Socks/Quota.antt =====
-- quotaWriter.Write: the bytes that a relay passes on are counted, and a write that meets the client's
-- limit ends with an error.
use libersuite_panel.Prelude.{ℕ, Bool, ◌&&◌, leb, if◌then◌else◌}
use libersuite_panel.Prelude.Int.{ℤ, pos, ltb_ℤ, leb_ℤ}
use libersuite_panel.Prelude.Words.{add64}

-- A quotaWriter less its writer and its counter, which the two writers of a session share.
pub record QuotaWriter : Type 0 where
  pub base_used : ℤ
  pub limit : ℤ

-- The error of a write: none, io.ErrShortWrite of the quota, or the error of the writer below.
pub data WriteError : Type 0 where
  nil short_write underlying : WriteError

-- The writer below took n bytes, and failed or not.
unfoldable pub quota_write : QuotaWriter → ℤ → ℕ → Bool → ℤ × WriteError
quota_write q used n failed =
    let used' = add64 used (pos n) in
    let total = add64 used' q.base_used in
    let result = if failed then underlying else nil in
    if leb n 0
    then (used, result)
    else if ltb_ℤ (pos 0) q.limit && leb_ℤ q.limit total
    then (used', short_write)
    else (used', result)
