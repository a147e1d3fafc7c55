-- ===== src/Tests/SpoolTest.antt =====
-- The spool of undelivered results on sample directories.
use agent_smith_go.Base.{◌≡◌, ◌≤◌, refl, arith, true, false, pos, codes, Bool, eq_bytes}
use agent_smith_go.Service.Spool.{SpoolEntry, enqueue, commit, flush}
use agent_smith_go.Service.Spool.Name.{file_name, padded_nanos, zero_padded, digits, digit_count}
use agent_smith_go.Service.Spool.Bound.{entry_count, enqueue-bounded}
use agent_smith_go.Service.Spool.Stored.{IsStored, enqueue-IsStored}
use agent_smith_go.Service.Spool.Removal.{flush_drains}
use agent_smith_go.Tests.Sample.{codec, disk, entry, spool}

padded_name : file_name (pos 5) 7 ≡ codes "00000000000000000005-000007.json"
unfolding file_name padded_nanos zero_padded digits digit_count
padded_name = refl

enqueue-bounded_example : entry_count (enqueue codec disk (pos 2000) entry spool).0 ≤ 2
enqueue-bounded_example =
    enqueue-bounded codec disk (pos 2000) entry spool 1 (λ n. refl) refl refl refl (omega arith)

enqueue-IsStored_example :
    IsStored codec disk (pos 2000) entry spool (enqueue codec disk (pos 2000) entry spool).0
unfolding enqueue commit
enqueue-IsStored_example = enqueue-IsStored codec disk (pos 2000) entry spool (λ n. refl) refl

-- The first entry in the order of the names is delivered, the second is refused.
abbrev only_a : SpoolEntry → Bool
only_a e = eq_bytes e.post_id (codes "a")

flush_drains_example :
    entry_count (flush codec disk (pos 2000) (λ k. false) (λ e. true) spool).1 ≡ 0
flush_drains_example =
    flush_drains codec disk (pos 2000) (λ e. true) spool (λ n. refl) (λ n. refl) refl (λ e. refl)
