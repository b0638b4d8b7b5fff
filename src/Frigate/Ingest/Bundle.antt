-- ===== src/Frigate/Ingest/Bundle.antt =====
-- adapters/frigate/pipeline.py: the ingest of a bundle, from the checkpoint on.
use mathlib.Core.Path.{subst}
use nanexus_event_intelligen.Prelude.{
  ℕ, zero, suc, ◌++◌, ◌+◌, ◌-◌, ◌≤◌, min, String, ◌≡◌, refl, sym, ap, ◌∙◌, arith, Option, none,
  some, List, [], ◌∷◌, length, take, drop, length-take, length-drop,
}
use nanexus_event_intelligen.Core.{ok, err, Result, value_error, Platform, Draws}
use nanexus_event_intelligen.Persistence.Models.{IngestCheckpoint}
use nanexus_event_intelligen.Persistence.Database.{Database, Tx, pure, raise, gets, ◌>>=◌}
use nanexus_event_intelligen.Persistence.Database.Frames.{>>=-passed}
use nanexus_event_intelligen.Persistence.Repositories.Checkpoints
use nanexus_event_intelligen.Frigate.Payloads.{FrigatePlatform}
use nanexus_event_intelligen.Frigate.Replay.{
  FixtureMessage, BundleFiles, BundleReader, load_fixture_bundle,
}
use nanexus_event_intelligen.Frigate.Ingest.{IngestResult, FrigateIngestPipeline, ingest}
use nanexus_event_intelligen.Frigate.Ingest.Outcome.{ingest-IsAdvanced}

+_zero : (n : ℕ) → n + 0 ≡ n
+_zero n = omega arith

+_suc : (n k : ℕ) → n + suc k ≡ n + 1 + k
+_suc n k = omega arith

drop_nil : {A : Type 0} (n : ℕ) → ◌≡◌ {A = List A} (drop n []) []
drop_nil zero = refl
drop_nil (suc n) = refl

drop-drop : {A : Type 0} (i j : ℕ) (xs : List A) → drop (i + j) xs ≡ drop j (drop i xs)
drop-drop zero j xs = ap (λ k. drop k xs) {y = j} (omega arith)
drop-drop (suc i) j [] = drop_nil (suc i + j) ∙ sym (drop_nil j)
drop-drop (suc i) j (x ∷ xs) =
    ap (λ k. drop k (x ∷ xs)) {y = suc (i + j)} (omega arith) ∙ drop-drop i j xs

-- `int(checkpoint.cursor) + 1 if checkpoint is not None else 0`, or ValueError, for a cursor that the
-- method wrote.
abbrev pub start_of : (String → Option ℕ) → Option IngestCheckpoint → Option ℕ
start_of int none = some 0
start_of int (some c) = elim (int c.cursor) [ none ↦ none | some n ↦ some (n + 1) ]

-- The messages of `range(start_index, stop_index)`.
abbrev pub selected : Option ℕ → ℕ → List FixtureMessage → List FixtureMessage
selected none start messages = drop start messages
selected (some maximum) start messages = take maximum (drop start messages)

-- The draws of a message are those at its index.
module _ (platform : Platform) (frigate : FrigatePlatform) (reader : BundleReader)
    (int : String → Option ℕ) (draws : ℕ → Draws) (pipeline : FrigateIngestPipeline)
    (stream : String) where
  unfoldable pub ingest_from : ℕ → List FixtureMessage → Tx (List IngestResult)
  ingest_from index [] = pure []
  ingest_from index (m ∷ ms) = do
    result ← ingest platform frigate (draws index) pipeline m stream (reader.show index)
    results ← ingest_from (index + 1) ms
    pure (result ∷ results)

  abbrev pub resume : List FixtureMessage → Option ℕ → Option ℕ → Tx (List IngestResult)
  resume messages maximum none = raise (value_error "invalid literal for int() with base 10")
  resume messages maximum (some start) = ingest_from start (selected maximum start messages)

  abbrev pub ingest_messages : Option ℕ → Result (List FixtureMessage) → Tx (List IngestResult)
  ingest_messages maximum (err e) = raise e
  ingest_messages maximum (ok messages) = do
    checkpoint ← gets (Checkpoints.get pipeline.source_instance_id stream)
    resume messages maximum (start_of int checkpoint)

  unfoldable pub ingest_fixture_bundle : BundleFiles → Option ℕ → Tx (List IngestResult)
  ingest_fixture_bundle files maximum =
      ingest_messages maximum (load_fixture_bundle platform reader files)

  -- The checkpoint of the stream is behind the message at `index`.
  abbrev pub IsAt : ℕ → Database → Type 0
  IsAt index db = start_of int (Checkpoints.get pipeline.source_instance_id stream db) ≡ some index

  -- The messages, the first of which stands at `index`, are ingested one after the other, each once,
  -- and end with these results.
  abbrev pub AreIngested :
      ℕ → List FixtureMessage → List IngestResult → Database → Database → Type 0
  AreIngested index [] [] db db' = db ≡ db'
  AreIngested index [] (r ∷ rs) db db' = ⊥
  AreIngested index (m ∷ ms) [] db db' = ⊥
  AreIngested index (m ∷ ms) (r ∷ rs) db db' =
      (between : Database) × (ingest platform frigate (draws index) pipeline m stream
          (reader.show index) db
        ≡ ok (r, between))
      × AreIngested (index + 1) ms rs between db'

  length-AreIngested :
      (index : ℕ) (ms : List FixtureMessage) (rs : List IngestResult) (db db' : Database)
      → AreIngested index ms rs db db'
      → length rs ≡ length ms
  length-AreIngested index [] [] db db' h = refl
  length-AreIngested index [] (r ∷ rs) db db' h = absurd h
  length-AreIngested index (m ∷ ms) [] db db' h = absurd h
  length-AreIngested index (m ∷ ms) (r ∷ rs) db db' (between, e, h) =
      omega (arith, length-AreIngested (index + 1) ms rs between db' h)

  -- An initial part of the messages and then the rest are ingested as all of them are.
  append-AreIngested :
      (n index : ℕ) (ms : List FixtureMessage) (rs rs' : List IngestResult) (db db' db'' : Database)
      → AreIngested index (take n ms) rs db db'
      → AreIngested (index + length rs) (drop (length rs) ms) rs' db' db''
      → AreIngested index ms (rs ++ rs') db db''
  append-AreIngested zero index ms [] rs' db db' db'' e h =
      subst (λ d. AreIngested index ms rs' d db'') (sym e)
        (subst (λ i. AreIngested i ms rs' db' db'') (+_zero index) h)
  append-AreIngested zero index ms (r ∷ rs) rs' db db' db'' h k = absurd h
  append-AreIngested (suc n) index [] [] rs' db db' db'' e h =
      subst (λ d. AreIngested index [] rs' d db'') (sym e)
        (subst (λ i. AreIngested i [] rs' db' db'') (+_zero index) h)
  append-AreIngested (suc n) index [] (r ∷ rs) rs' db db' db'' h k = absurd h
  append-AreIngested (suc n) index (m ∷ ms) [] rs' db db' db'' h k = absurd h
  append-AreIngested (suc n) index (m ∷ ms) (r ∷ rs) rs' db db' db'' (between, e, h) k = (
    between,
    e,
    append-AreIngested n (index + 1) ms rs rs' between db' db'' h
        (subst (λ i. AreIngested i (drop (length rs) ms) rs' db' db'') (+_suc index (length rs)) k),
  )

  ingest_from-AreIngested :
      (index : ℕ) (ms : List FixtureMessage) (db db' : Database) (rs : List IngestResult)
      → ingest_from index ms db ≡ ok (rs, db')
      → AreIngested index ms rs db db'
  unfolding ingest_from
  ingest_from-AreIngested index [] db db' rs h =
      let (e, same) = ends h in subst (λ r. AreIngested index [] r db db') (sym e) same
    where
      ends :
          ◌≡◌ {A = Result (List IngestResult × Database)} (ok ([], db)) (ok (rs, db'))
          → (rs ≡ []) × (db ≡ db')
      ends h = ground arith
  ingest_from-AreIngested index (m ∷ ms) db db' rs h =
      let (r, db1, e1, h1) =
        >>=-passed (ingest platform frigate (draws index) pipeline m stream (reader.show index)) _
          db (rs, db') h in
      let (rs1, db2, e2, h2) = >>=-passed (ingest_from (index + 1) ms) _ db1 (rs, db') h1 in
      let (e, same) = ends r rs1 db2 h2 in
      subst (λ l. AreIngested index (m ∷ ms) l db db') (sym e)
        (
          db1,
          e1,
          subst (AreIngested (index + 1) ms rs1 db1) same
              (ingest_from-AreIngested (index + 1) ms db1 db2 rs1 e2),
        )
    where
      ends :
          (r : IngestResult) (rs1 : List IngestResult) (db2 : Database)
          → ◌≡◌ {A = Result (List IngestResult × Database)} (ok (r ∷ rs1, db2)) (ok (rs, db'))
          → (rs ≡ r ∷ rs1) × (db2 ≡ db')
      ends r rs1 db2 h = ground arith

  resume-AreIngested :
      (messages : List FixtureMessage) (maximum : Option ℕ) (start : ℕ) (found : Option ℕ)
      (db db' : Database) (rs : List IngestResult)
      → found ≡ some start
      → resume messages maximum found db ≡ ok (rs, db')
      → AreIngested start (selected maximum start messages) rs db db'
  resume-AreIngested messages maximum start none db db' rs e h = absurd (ground arith)
  resume-AreIngested messages maximum start (some start') db db' rs e h =
      let same : start' ≡ start = cc in
      ingest_from-AreIngested start (selected maximum start messages) db db' rs
        (ap (λ i. ingest_from i (selected maximum i messages) db) (sym same) ∙ h)

  bundle-AreIngested :
      (files : BundleFiles) (maximum : Option ℕ) (messages : List FixtureMessage) (start : ℕ)
      (db db' : Database) (rs : List IngestResult)
      → load_fixture_bundle platform reader files ≡ ok messages
      → IsAt start db
      → ingest_fixture_bundle files maximum db ≡ ok (rs, db')
      → AreIngested start (selected maximum start messages) rs db db'
  unfolding ingest_fixture_bundle
  bundle-AreIngested files maximum messages start db db' rs loaded at h =
      resume-AreIngested messages maximum start _ db db' rs at
        (ap (λ l. ingest_messages maximum l db) (sym loaded) ∙ h)

  module _ (int-show : (n : ℕ) → int (reader.show n) ≡ some n) where
    ingest-IsAt :
        (index : ℕ) (m : FixtureMessage) (db db' : Database) (r : IngestResult)
        → ingest platform frigate (draws index) pipeline m stream (reader.show index) db
          ≡ ok (r, db')
        → IsAt (index + 1) db'
    ingest-IsAt index m db db' r h =
        let (c, found, at_cursor) =
          ingest-IsAdvanced platform frigate (draws index) pipeline m stream (reader.show index) db
            db' r h in
        ground (arith, found, at_cursor, int-show index)

    AreIngested-IsAt :
        (index : ℕ) (ms : List FixtureMessage) (rs : List IngestResult) (db db' : Database)
        → IsAt index db
        → AreIngested index ms rs db db'
        → IsAt (index + length rs) db'
    AreIngested-IsAt index [] [] db db' at e =
        subst (IsAt (index + 0)) e (at ∙ ap some (omega arith))
    AreIngested-IsAt index [] (r ∷ rs) db db' at h = absurd h
    AreIngested-IsAt index (m ∷ ms) [] db db' at h = absurd h
    AreIngested-IsAt index (m ∷ ms) (r ∷ rs) db db' at (between, e, h) =
        AreIngested-IsAt (index + 1) ms rs between db' (ingest-IsAt index m db between r e) h
        ∙ ap some (omega arith)

    -- Where `int(str(n))` is n: a run that stops after at most `maximum` messages and a later run
    -- without a limit, from a checkpoint before the end of the bundle, give together the results of
    -- the ingests of the messages from the checkpoint to the end of the bundle, each of them ingested
    -- once and in its order; the first run stops after `maximum` of them or at the end, and the
    -- checkpoint is left at the end of the bundle.
    pub bundle_resumes :
        (files : BundleFiles) (maximum : ℕ) (messages : List FixtureMessage) (start : ℕ)
        (db db' db'' : Database) (rs rs' : List IngestResult)
        → load_fixture_bundle platform reader files ≡ ok messages
        → IsAt start db
        → start ≤ length messages
        → ingest_fixture_bundle files (some maximum) db ≡ ok (rs, db')
        → ingest_fixture_bundle files none db' ≡ ok (rs', db'')
        → AreIngested start (drop start messages) (rs ++ rs') db db''
          × (length rs ≡ min maximum (length messages - start))
          × (start + length rs + length rs' ≡ length messages)
          × IsAt (length messages) db''
    bundle_resumes files maximum messages start db db' db'' rs rs' loaded at le h h' =
        let first = bundle-AreIngested files (some maximum) messages start db db' rs loaded at h in
        let at1 = AreIngested-IsAt start _ rs db db' at first in
        let second =
          bundle-AreIngested files none messages (start + length rs) db' db'' rs' loaded at1 h' in
        let at2 = AreIngested-IsAt (start + length rs) _ rs' db' db'' at1 second in
        let m1 : length rs ≡ min maximum (length messages - start) =
          length-AreIngested start _ rs db db' first
          ∙ length-take maximum (drop start messages)
          ∙ ap (min maximum) (length-drop start messages) in
        let m2 : length rs' ≡ length messages - (start + length rs) =
          length-AreIngested (start + length rs) _ rs' db' db'' second
          ∙ length-drop (start + length rs) messages in
        let all : start + length rs + length rs' ≡ length messages = omega (arith, m1, m2, le) in
        (
          append-AreIngested maximum start (drop start messages) rs rs' db db' db'' first (
              subst (λ ms. AreIngested (start + length rs) ms rs' db' db'')
                (drop-drop start (length rs) messages) second),
          m1,
          all,
          at2 ∙ ap some all,
        )
