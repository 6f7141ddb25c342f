-- ===== src/Worker/Scan.antt =====
-- The verdict of the scanner on quarantined files.
use astra_file_host.Base.{
  ℕ, ◌≡◌, refl, false, ◌&&◌, none, List, [], ◌∷◌, arith, find, update_where, ◌==◌, ◌≤◌,
  if◌then◌else◌, find-update_where, map_found,
}
use astra_file_host.Database.{Db, FileRow}
use astra_file_host.Uploads.{touch}
use astra_file_host.Worker.{is_quarantined, verdict_state, apply_verdict, is_gone, scan}

-- The file after a scan: judged, if it was quarantined and is one of the object.
abbrev pub judged : ℕ → ℕ → FileRow → FileRow
judged code object f =
    if f.object_id == object && is_quarantined f.state
    then touch (record f { state = verdict_state code })
    else f

-- A scan that has an object to judge and a verdict leaves each file as it was, but for those of the
-- object in quarantine: these are blocked if the scanner exits with 1, and available if with 0. So no
-- file of the object stays in quarantine.
pub scan-find :
    (code object id : ℕ) (db : Db)
    → code ≤ 1
    → is_gone (db.objects object) ≡ false
    → (find (λ (f : FileRow). f.id == id) (scan code object db).1.files
        ≡ map_found (judged code object) (find (λ (f : FileRow). f.id == id) db.files))
      × (find
            (λ (f : FileRow). f.object_id == object && is_quarantined f.state)
            (scan code object db).1.files
          ≡ none)
unfolding scan apply_verdict
scan-find code object id db h there = (
  ground (
    arith,
    find-update_where (λ f. f.id == id)
        (λ (f : FileRow). f.object_id == object && is_quarantined f.state)
        (λ f. touch (record f { state = verdict_state code })) db.files (λ f. refl),
  ),
  ground (arith, none_left code object db.files),
)
  where
    none_left :
        (code object : ℕ) (fs : List FileRow)
        → find
            (λ (f : FileRow). f.object_id == object && is_quarantined f.state)
            (update_where
              (λ (f : FileRow). f.object_id == object && is_quarantined f.state)
              (λ f. touch (record f { state = verdict_state code }))
              fs)
          ≡ none
    none_left code object [] = refl
    none_left code object (f ∷ fs) = ground (arith, none_left code object fs)
