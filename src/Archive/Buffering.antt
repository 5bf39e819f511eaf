-- ===== src/Archive/Buffering.antt =====
-- What a call of archive that returns has buffered: the sealed documents, in their order.
use orcastork.Base.{>>=-eq-ok, List, [], ap, arith, map, ok, sym, ◌++◌, ◌>>◌, ◌∙◌, ◌∷◌, ◌≡◌, refl}
use orcastork.Archive.{
  ArchivedDataPoint, ArchiveState, Codec, archive, archive_many, seal, value_hash,
}
use mathlib.Core.List.{append-nil, append_assoc}

module _ (codec : Codec) where
  -- The row that is buffered for a document.
  unfoldable pub sealed_row : ArchivedDataPoint → ArchivedDataPoint
  sealed_row entry = record (seal codec entry) { value_hash = value_hash codec entry }

  pub archive-buffer :
      (entry : ArchivedDataPoint) (s : ArchiveState) {s' : ArchiveState}
      → archive codec entry s ≡ (ok tt, s')
      → s'.buffer ≡ s.buffer ++ sealed_row entry ∷ []
  unfolding archive sealed_row
  archive-buffer entry s h = ground arith

  nothing_archived :
      (s : ArchiveState) {s' : ArchiveState} → archive_many codec [] s ≡ (ok tt, s') → s ≡ s'
  unfolding archive_many
  nothing_archived s h = ground arith

  archive_many_cons :
      (entry : ArchivedDataPoint) (entries : List ArchivedDataPoint) (s : ArchiveState)
      → archive_many codec (entry ∷ entries) s
        ≡ (archive codec entry >> archive_many codec entries) s
  unfolding archive_many
  archive_many_cons entry entries s = refl

  pub archive_many-buffer :
      (entries : List ArchivedDataPoint) (s : ArchiveState) {s' : ArchiveState}
      → archive_many codec entries s ≡ (ok tt, s')
      → s'.buffer ≡ s.buffer ++ map sealed_row entries
  archive_many-buffer [] s h = rw (← (nothing_archived s h)) (sym (append-nil s.buffer))
  archive_many-buffer (entry ∷ entries) s h =
      let (_, t, p, q) =
        >>=-eq-ok (archive codec entry) _ s (sym (archive_many_cons entry entries s) ∙ h) in
      archive_many-buffer entries t q
      ∙ (ap (λ l. l ++ map sealed_row entries) (archive-buffer entry s p)
          ∙ append_assoc s.buffer (sealed_row entry ∷ []) (map sealed_row entries))
