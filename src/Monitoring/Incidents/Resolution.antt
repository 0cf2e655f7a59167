-- ===== src/Monitoring/Incidents/Resolution.antt =====
-- The life of an incident's status in monitoring_agent/store.py, and what pruning can reach.
use agent_bakery.Prelude.{
  ℕ, String, ◌≡◌, refl, Bool, true, if◌then◌else◌, false, Option, none, some, List, [], ◌∷◌, arith,
  str_eq,
}
use agent_bakery.Prelude.Dict.{Dict, lookup, insert}
use agent_bakery.Monitoring.Incidents.{
  Row, Report, written, insert_or_bump, upsert, update, mark_alert_failed, clear_alert_failed,
  cleared, delete_prunable, prune,
}
use agent_bakery.Monitoring.Incidents.History.{Write, report, mark, clear, after}

-- No row is resolved.
abbrev NoneResolved : Dict Row → Type 0
NoneResolved [] = Unit
NoneResolved ((k, row) ∷ rows) = (str_eq row.status "resolved" ≡ false) × NoneResolved rows

insert-NoneResolved :
    (k : String) (row : Row) (rows : Dict Row)
    → str_eq row.status "resolved" ≡ false
    → NoneResolved rows
    → NoneResolved (insert k row rows)
insert-NoneResolved k row [] h hs = ground arith
insert-NoneResolved k row ((j, r) ∷ rows) h hs =
    ground (arith, insert-NoneResolved k row rows h hs.1)

update-NoneResolved :
    (k : String) (f : Row → Row) (rows : Dict Row)
    → ((row : Row)
        → str_eq row.status "resolved" ≡ false
        → str_eq (f row).status "resolved" ≡ false)
    → NoneResolved rows
    → NoneResolved (update k f rows)
update-NoneResolved k f [] h hs = tt
update-NoneResolved k f ((j, r) ∷ rows) h hs =
    ground (arith, update-NoneResolved k f rows h hs.1, h r hs.0)

-- A status chosen by a test between "open" and one that is not "resolved".
choose_open :
    (b : Bool) (status : String)
    → (b ≡ false → str_eq status "resolved" ≡ false)
    → str_eq (if b then "open" else status) "resolved" ≡ false
choose_open true status h = refl
choose_open false status h = h refl

written_open :
    (o : Option Row) (id : ℕ) (r : Report) (now : ℕ)
    → str_eq (written o id r now).status "resolved" ≡ false
unfolding written
written_open none id r now = refl
written_open (some row) id r now = choose_open (str_eq row.status "resolved") row.status (λ e. e)

after-NoneResolved : (ws : List Write) → NoneResolved (after ws).rows
unfolding after upsert insert_or_bump mark_alert_failed clear_alert_failed
after-NoneResolved [] = tt
after-NoneResolved (report k r now ∷ ws) =
    insert-NoneResolved k _ (after ws).rows (written_open (lookup k (after ws).rows) _ r now)
      (after-NoneResolved ws)
after-NoneResolved (mark k ∷ ws) =
    update-NoneResolved k _ (after ws).rows (λ row h. refl) (after-NoneResolved ws)
after-NoneResolved (clear k ∷ ws) =
    update-NoneResolved k cleared (after ws).rows
      (λ row h. choose_open (str_eq row.status "alert_failed") row.status (λ e. h))
      (after-NoneResolved ws)

delete_prunable_none :
    (n now : ℕ) (rows : Dict Row) → NoneResolved rows → delete_prunable n now rows ≡ rows
unfolding delete_prunable
delete_prunable_none n now [] h = refl
delete_prunable_none n now ((k, row) ∷ rows) h = ground (arith, delete_prunable_none n now rows h.1)

-- No operation of the store resolves an incident, so the retention prune never deletes one: after any
-- history of reports, marks and clears, at any time and for any retention, it deletes no row.
pub prune_never_deletes : (n now : ℕ) (ws : List Write) → prune n now (after ws) ≡ (0, after ws)
unfolding prune
prune_never_deletes n now ws =
    ground (arith, delete_prunable_none n now (after ws).rows (after-NoneResolved ws))
