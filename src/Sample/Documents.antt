-- ===== src/Sample/Documents.antt =====
-- An Elastic Search in memory for the tests: the world is the list of the documents, the last one
-- that was put first, and a search finds the greetings whose text is the query.
use rusty_dendrite.Prelude.{
  some, ◌≤◌, String, ◌≡◌, refl, sym, subst, ap, ◌∙◌, ◌⊎◌, inl, inr, Bool, Bool-cases, true, false,
  List, [], ◌∷◌, if◌then◌else◌, ◌==◌, eq_iff,
}
use rusty_dendrite.Prelude.Int.{pos}
use rusty_dendrite.Io.{ok}
use rusty_dendrite.Runtime.{Runtime}
use rusty_dendrite.Json.{
  Value, null, boolean, number, text, array, object, Values, no_values, value_and, no_members,
  member_and, field,
}
use rusty_dendrite.ExampleEvent
use rusty_dendrite.ExampleEvent.Resumes.{KeepsDocuments}
use rusty_dendrite.ExampleQuery
use rusty_dendrite.ExampleQuery.Greeted.{IsText}
use rusty_dendrite.ExampleQuery.Hits.{InHits, IsComplete, AreDocuments, Covers, count, Searches}

pub record Kept : Type 0 where
  pub index : String
  pub id : String
  pub value : Value

abbrev pub Documents : Type 0
Documents = List Kept

abbrev pub document : Documents → String → String → Value
document [] index id = null
document (k ∷ ks) index id =
    if k.index == index
    then (if k.id == id then k.value else document ks index id)
    else document ks index id

abbrev pub no_documents : Documents
no_documents = []

-- The hash of a text is the text.
abbrev pub sample_hash : String → String
sample_hash s = s

abbrev pub indexer : ExampleEvent.Elasticsearch Documents
indexer = record {
  index = λ index id v s. (ok tt, record { index = index; id = id; value = v } ∷ s);
  get = λ index id s. (ok (object (member_and "_source" (document s index id) no_members)), s);
}

pub indexer-KeepsDocuments : KeepsDocuments indexer document
unfolding field
indexer-KeepsDocuments = record {
  puts = λ index id v s index' id'. refl;
  gets = λ index id s. (_, refl, refl);
}

-- A document is a hit where its text is the query.
abbrev hit_of : String → Value → Value → Values → Values
hit_of query v (text m) rest =
    if m == query then value_and (object (member_and "_source" v no_members)) rest else rest
hit_of query v null rest = rest
hit_of query v (boolean b) rest = rest
hit_of query v (number n) rest = rest
hit_of query v (array vs) rest = rest
hit_of query v (object fields) rest = rest

abbrev hits_among : String → Documents → Documents → Values
hits_among query s [] = no_values
hits_among query s (k ∷ ks) =
    hit_of query (document s "greetings" k.id) (field (document s "greetings" k.id) "value")
      (hits_among query s ks)

abbrev pub hits : String → Documents → Values
hits query s = hits_among query s s

abbrev pub found : String → Documents → Value
found query s = object (
    member_and "hits" (object (member_and "hits" (array (hits query s)) no_members)) (
      member_and "timed_out" (boolean false) (
        member_and "_shards" (object (member_and "failed" (number (some (pos 0))) no_members))
          no_members)))

pub found-hits :
    (query : String) (s : Documents)
    → field (field (found query s) "hits") "hits" ≡ array (hits query s)
unfolding field
found-hits query s = refl

pub found-IsComplete : (query : String) (s : Documents) → IsComplete (found query s)
unfolding field
found-IsComplete query s = (refl, refl)

-- A search sees the documents as they are.
abbrev pub searcher : ExampleQuery.Elasticsearch Documents
searcher = record { search = λ query s. (ok (found query s), s) }

abbrev pub sample_matches : String → String → Bool
sample_matches query m = m == query

hit_of-AreDocuments :
    (query : String) (s : Documents) (id : String) (x : Value) (rest : Values)
    → field (document s "greetings" id) "value" ≡ x
    → AreDocuments document s rest
    → AreDocuments document s (hit_of query (document s "greetings" id) x rest)
unfolding field
hit_of-AreDocuments query s id (text m) rest e h = elim (Bool-cases (m == query)) [
  | inl same ↦ rw same (
    (id, (λ missing. subst IsText (sym (ap (λ v. field v "value") (sym missing) ∙ e)) tt), refl),
    h,
  )
  | inr other ↦ rw other h
]
hit_of-AreDocuments query s id null rest e h = h
hit_of-AreDocuments query s id (boolean b) rest e h = h
hit_of-AreDocuments query s id (number n) rest e h = h
hit_of-AreDocuments query s id (array vs) rest e h = h
hit_of-AreDocuments query s id (object fields) rest e h = h

hits_among-AreDocuments :
    (query : String) (s ks : Documents) → AreDocuments document s (hits_among query s ks)
hits_among-AreDocuments query s [] = tt
hits_among-AreDocuments query s (k ∷ ks) =
    hit_of-AreDocuments query s k.id _ _ refl (hits_among-AreDocuments query s ks)

abbrev Listed : String → Documents → Type 0
Listed id [] = ⊥
Listed id (k ∷ ks) = (k.id ≡ id) ⊎ Listed id ks

document-other :
    (k : Kept) (ks : Documents) (id : String)
    → (k.id == id) ≡ false
    → document (k ∷ ks) "greetings" id ≡ document ks "greetings" id
document-other k ks id other = elim (Bool-cases (k.index == "greetings")) [
  | inl same ↦ rw (same, other) refl
  | inr differs ↦ rw differs refl
]

-- A document with a text stands in the list.
text-Listed :
    (ks : Documents) (id m : String)
    → field (document ks "greetings" id) "value" ≡ text m
    → Listed id ks
unfolding field
text-Listed [] id m e = subst IsText (sym e) tt
text-Listed (k ∷ ks) id m e = elim (Bool-cases (k.id == id)) [
  | inl same ↦ inl ((eq_iff k.id id).0 same)
  | inr other ↦
      inr (text-Listed ks id m (ap (λ v. field v "value") (sym (document-other k ks id other)) ∙ e))
]

InHits-hit_of :
    (query m : String) (v x : Value) (rest : Values)
    → InHits m rest
    → InHits m (hit_of query v x rest)
InHits-hit_of query m v (text t) rest i = elim (Bool-cases (t == query)) [
  | inl same ↦ rw same (inr i)
  | inr other ↦ rw other i
]
InHits-hit_of query m v null rest i = i
InHits-hit_of query m v (boolean b) rest i = i
InHits-hit_of query m v (number n) rest i = i
InHits-hit_of query m v (array vs) rest i = i
InHits-hit_of query m v (object fields) rest i = i

InHits-first :
    (query m : String) (v x : Value) (rest : Values)
    → x ≡ text m
    → field v "value" ≡ text m
    → (m == query) ≡ true
    → InHits m (hit_of query v x rest)
unfolding field
InHits-first query m v x rest shows e same = rw (shows, same) (inl e)

hits_among-Covers :
    (query : String) (s ks : Documents) (id m : String)
    → Listed id ks
    → field (document s "greetings" id) "value" ≡ text m
    → (m == query) ≡ true
    → InHits m (hits_among query s ks)
hits_among-Covers query s [] id m i e same = absurd i
hits_among-Covers query s (k ∷ ks) id m (inl here) e same =
    let kept = ap (λ i. field (document s "greetings" i) "value") here ∙ e in
    InHits-first query m _ _ _ kept kept same
hits_among-Covers query s (k ∷ ks) id m (inr i) e same =
    InHits-hit_of query m _ _ _ (hits_among-Covers query s ks id m i e same)

-- What the law of searches asks of some hits.
abbrev Page : String → Documents → Values → Type 0
Page query s page =
    AreDocuments document s page
    × ((10 ≤ count page) ⊎ Covers document (sample_matches query) s page)

hits-Page : (query : String) (s : Documents) → Page query s (hits query s)
hits-Page query s = (
  hits_among-AreDocuments query s s,
  inr (λ id m e same. hits_among-Covers query s s id m (text-Listed s id m e) e same),
)

pub searcher-Searches : Searches document searcher sample_matches
searcher-Searches = record {
  pages = λ query s s' json_value page answered shown complete.
      subst (Page query s) (cc (answered, shown, found-hits query s)) (hits-Page query s);
}

abbrev pub documents_runtime : Runtime Documents
documents_runtime = record { new_v4 = λ s. ("uuid", s); since_epoch_millis = λ s. (ok 7, s) }
