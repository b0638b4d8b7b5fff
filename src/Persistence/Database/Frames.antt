-- ===== src/Persistence/Database/Frames.antt =====
-- What a transaction leaves alone: the rules for its statements and their sequence.
use nanexus_event_intelligen.Prelude.{
  ◌≡◌, refl, ◌∙◌, arith, Bool, true, false, List, [], ◌∷◌, ◌++◌, any, if◌then◌else◌,
}
use nanexus_event_intelligen.Core.{Result, ok, err, integrity_error}
use nanexus_event_intelligen.Persistence.Database.Tables.{Database, Tx, pure, ◌>>=◌, add_row}
use nanexus_event_intelligen.Persistence.Database.Inserts.{store}

-- Where the statements end well, what `f` reads of the tables is as before.
abbrev pub Keeps : {A X : Type 0} → (Database → X) → Tx A → Type 0
Keeps {A} f m = (db db' : Database) (a : A) → m db ≡ ok (a, db') → f db' ≡ f db

-- A sequence that ends well has a first part that ends well.
pub >>=-passed :
    {A B : Type 0} (m : Tx A) (k : A → Tx B) (db : Database) (answer : B × Database)
    → (m >>= k) db ≡ ok answer
    → (a : A) × (db' : Database) × (m db ≡ ok (a, db')) × (k a db' ≡ ok answer)
>>=-passed {A = A} {B = B} m k db answer h = by_result (m db) refl h
  where
    by_result :
        (r : Result (A × Database))
        → m db ≡ r
        → elim r [ ok (a, db') ↦ k a db' | err e ↦ err e ] ≡ ok answer
        → (a : A) × (db' : Database) × (m db ≡ ok (a, db')) × (k a db' ≡ ok answer)
    by_result (ok (a, db')) e h = (a, db', e, h)
    by_result (err e') e h = absurd (ground arith)

pub >>=-Keeps :
    {A B X : Type 0} (f : Database → X) (m : Tx A) (k : A → Tx B)
    → Keeps f m
    → ((a : A) → Keeps f (k a))
    → Keeps f (m >>= k)
>>=-Keeps f m k h g db db' b e =
    let (a, db1, e1, e2) = >>=-passed m k db (b, db') e in g a db1 db' b e2 ∙ h db db1 a e1

-- An insert that ends well has appended its row.
pub store-appends :
    {A : Type 0} (put : List A → Database) (same : A → A → Bool) (row : A) (table : List A)
    (db' : Database)
    → store put (add_row same row table) ≡ ok (tt, db')
    → db' ≡ put (table ++ row ∷ [])
store-appends {A = A} put same row table db' h = by_test (any (same row) table) h
  where
    by_test :
        (b : Bool)
        → store put (if b then err integrity_error else ok (table ++ row ∷ [])) ≡ ok (tt, db')
        → db' ≡ put (table ++ row ∷ [])
    by_test true e = absurd (ground arith)
    by_test false e = ground arith

pub pure-passed :
    {A : Type 0} (a : A) (db : Database) (answer : A × Database)
    → pure a db ≡ ok answer
    → (answer.0 ≡ a) × (db ≡ answer.1)
pure-passed a db answer h = ground arith
