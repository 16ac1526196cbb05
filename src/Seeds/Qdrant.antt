-- ===== src/Seeds/Qdrant.antt =====
-- data/scripts/seed_qdrant.py. The files, sha256, the environment, `hash` and the vector database are
-- a record of operations on a state `W`, which may raise. A document's texts are lists of code points.
use aero_risk_ai.Base.{
  ℕ, zero, suc, ◌%◌, ◌^◌, ◌≡◌, refl, String, concat, none, some, List, [], ◌∷◌, ◌++◌, map, arith,
  ◌==◌, if◌then◌else◌,
}
use aero_risk_ai.Base.Int.{pos, ◌-ℤ◌}
use aero_risk_ai.Base.Dict.{Dict, lookup, get_or}
use aero_risk_ai.Base.Lists.{length, take, drop}
use aero_risk_ai.Base.Lines.{Line, newline, strip, has_prefix, onto, split}
use aero_risk_ai.Base.Text.{codes}
use aero_risk_ai.Base.Outcome.{Outcome, ok, err, runtime}
use aero_risk_ai.Base.Exec.{Exec, pure, lift, attempt, ◌>>=◌, ◌>>◌}
use aero_risk_ai.Base.Float.{Float}

pub record ComplianceDoc : Type 0 where
  pub doc_id : Line
  pub source : Line
  pub section : Line
  pub content : Line
  pub full_text : Line

pub record SanctionsEntity : Type 0 where
  pub entity_id : String
  pub name : String
  pub kind : String
  pub programs : String
  pub remarks : String
  pub full_text : String

pub record Point (F P : Type 0) : Type 0 where
  pub id : ℕ
  pub vector : List F
  pub payload : P

-- What is upserted: a document, an entity or a profile.
pub data Payload (P : Type 0) : Type 0 where
  document : ComplianceDoc → Payload P
  entity : SanctionsEntity → Payload P
  profile : P → Payload P

pub record Seeder (W F P : Type 0) : Type 0 where
  -- The names of the directory that end in .txt, without it and in capitals, with the contents.
  pub read_docs : Exec W (List (Line × Line))
  pub read_rows : Exec W (List (Dict String))
  -- The list under "profiles", with the text and the user_id of each.
  pub read_profiles : Exec W (List P)
  pub profile_text : P → Outcome Line
  pub profile_id : P → Outcome Line
  -- `hashlib.sha256(text.encode()).digest()`, of 32 bytes.
  pub digest : Line → List ℕ
  -- `hash(text)` modulo 2 ** 63 in Python is never negative; the hash as a natural number.
  pub hash : Line → ℕ
  pub delete_collection : String → Exec W (Unit {0})
  pub create_collection : String → ℕ → Exec W (Unit {0})
  pub upsert : String → List (Point F (Payload P)) → Exec W (Unit {0})

-- `hash_bytes[i]`
abbrev pub byte_at : ℕ → List ℕ → ℕ
byte_at i [] = 0
byte_at zero (b ∷ bytes) = b
byte_at (suc i) (b ∷ bytes) = byte_at i bytes

-- `content.split("## ")`, past the next `skip` characters.
abbrev pub split_marker : ℕ → Line → List Line
split_marker skip [] = [] ∷ []
split_marker zero (c ∷ s) =
    let kept = onto c (split_marker zero s) in
    let cut = [] ∷ split_marker 2 s in if has_prefix (codes "## ") (c ∷ s) then cut else kept
split_marker (suc skip) (c ∷ s) = split_marker skip s

-- `'\n'.join(lines)`
abbrev pub join_lines : List Line → Line
join_lines [] = []
join_lines (l ∷ []) = l
join_lines (l ∷ m ∷ ls) = l ++ (newline ∷ join_lines (m ∷ ls))

-- `title.replace(' ', '_')`
abbrev pub underscored : Line → Line
underscored s = map (λ (c : ℕ). if c == b' ' then b'_' else c) s

-- `lines[0]`; a split has a part.
abbrev pub first_line : List Line → Line
first_line [] = []
first_line (l ∷ ls) = l

unfoldable pub doc_of : Line → Line → ComplianceDoc
doc_of source section =
    let lines = split newline (strip section) in
    let title = strip (first_line lines) in
    let body = strip (join_lines (drop 1 lines)) in
    record {
      doc_id = source ++ (b'-' ∷ underscored (take 20 title));
      source = source;
      section = title;
      content = body;
      full_text = title ++ (b':' ∷ b' ' ∷ body);
    }

-- The sections of a file behind its header.
pub docs_in : Line × Line → List ComplianceDoc
docs_in (source, content) = map (doc_of source) (drop 1 (split_marker 0 content))

pub docs_of : List (Line × Line) → List ComplianceDoc
docs_of [] = []
docs_of (file ∷ files) = docs_in file ++ docs_of files

-- `row[key]`
abbrev pub required : String → Dict String → Outcome String
required key row = elim (lookup key row) [ none ↦ err (runtime "KeyError") | some s ↦ ok s ]

module _ {W F P : Type 0} ⦃fl : Float F⦄ (s : Seeder W F P) where
  -- The numbers `i` to `i + n`.
  pub embedding_from : ℕ → ℕ → List ℕ → List F
  embedding_from i zero bytes = []
  embedding_from i (suc n) bytes =
      fl.div (fl.of_int (pos (byte_at (i % length bytes) bytes) -ℤ pos 128)) (fl.lit 128 1)
      ∷ embedding_from (suc i) n bytes

  pub get_embedding : Line → List F
  unfolding embedding_from
  get_embedding text = embedding_from 0 768 (s.digest text)

  pub load_compliance_docs : Exec W (List ComplianceDoc)
  unfolding docs_of docs_in
  load_compliance_docs = do files ← s.read_docs; pure (docs_of files)

  pub entity_of : Dict String → Outcome SanctionsEntity
  entity_of row =
      entity_from (required "entity_number" row) (required "name" row) (required "type" row)
        (required "programs" row)
    where
      entity_from :
          Outcome String
          → Outcome String
          → Outcome String
          → Outcome String
          → Outcome SanctionsEntity
      entity_from (ok number) (ok name) (ok kind) (ok programs) =
          let remarks = get_or "remarks" "" row in
          ok (record {
            entity_id = concat "SDN-" number;
            name = name;
            kind = kind;
            programs = programs;
            remarks = remarks;
            full_text = concat name (
                concat " - " (concat kind (concat " - " (concat programs (concat " - " remarks)))));
          })
      entity_from _ _ _ _ = err (runtime "KeyError")

  pub entities_of : List (Dict String) → Outcome (List SanctionsEntity)
  entities_of [] = ok []
  entities_of (row ∷ rows) = before (entity_of row) (entities_of rows)
    where
      before :
          Outcome SanctionsEntity → Outcome (List SanctionsEntity) → Outcome (List SanctionsEntity)
      before (ok e) (ok es) = ok (e ∷ es)
      before _ _ = err (runtime "KeyError")

  pub load_sanctions : Exec W (List SanctionsEntity)
  unfolding entities_of
  load_sanctions = do rows ← s.read_rows; lift (entities_of rows)

  pub point_of : Line → Line → Payload P → Point F (Payload P)
  unfolding get_embedding
  point_of key text payload = record {
    id = s.hash key % 2 ^ 63;
    vector = get_embedding text;
    payload = payload;
  }

  pub doc_point : ComplianceDoc → Point F (Payload P)
  unfolding point_of
  doc_point d = point_of d.doc_id d.full_text (document d)

  pub entity_point : SanctionsEntity → Point F (Payload P)
  unfolding point_of
  entity_point e = point_of (codes e.entity_id) (codes e.full_text) (entity e)

  pub profile_points : List P → Outcome (List (Point F (Payload P)))
  unfolding point_of
  profile_points [] = ok []
  profile_points (p ∷ ps) = before (s.profile_text p) (s.profile_id p) (profile_points ps)
    where
      before :
          Outcome Line
          → Outcome Line
          → Outcome (List (Point F (Payload P)))
          → Outcome (List (Point F (Payload P)))
      before (ok text) (ok key) (ok points) = ok (point_of key text (profile p) ∷ points)
      before _ _ _ = err (runtime "KeyError")

  -- A collection is dropped where it is there, and made anew.
  pub recreate : String → Exec W (Unit {0})
  recreate name = attempt (s.delete_collection name) tt >> s.create_collection name 768

  pub seed_qdrant : Exec W (Unit {0})
  unfolding recreate load_compliance_docs load_sanctions doc_point entity_point profile_points
  seed_qdrant = do
    recreate "compliance_docs"
    docs ← load_compliance_docs
    s.upsert "compliance_docs" (map doc_point docs)
    recreate "sanctions_list"
    entities ← load_sanctions
    s.upsert "sanctions_list" (map entity_point entities)
    recreate "user_profiles"
    profiles ← s.read_profiles
    points ← lift (profile_points profiles)
    s.upsert "user_profiles" points

  -- An embedding has the dimension of the collections.
  length-embedding_from : (i n : ℕ) (bytes : List ℕ) → length (embedding_from i n bytes) ≡ n
  unfolding embedding_from
  length-embedding_from i zero bytes = refl
  length-embedding_from i (suc n) bytes = omega (arith, length-embedding_from (suc i) n bytes)

  pub length-get_embedding : (text : Line) → length (get_embedding text) ≡ 768
  unfolding get_embedding
  length-get_embedding text = length-embedding_from 0 768 (s.digest text)
