-- ===== src/Backend/Mongo/Tests.antt =====
-- A collection of one document, and documents that are their texts.
use cachelib_archive.Base.{
  ℕ, ◌≡◌, refl, subst, true, false, none, some, List, [], ◌∷◌, ◌++◌, arith, Bool,
}
use cachelib_archive.Base.Text.{codes}
use cachelib_archive.Backend.{IsSendable, to_string, int_string, digits_of, full_key}
use cachelib_archive.Backend.Tests.{one_slot}
use cachelib_archive.Backend.Mongo.{Bson, Collection, MongoBackend, filter, mongo_read_record}
use cachelib_archive.Backend.Mongo.Coherence.{IsCoherent, IsRead, CanSend, mongo_read_record-IsRead}

abbrev texts : Bson
texts = record {
  Doc = List ℕ;
  document = λ key fields. codes "{_id: " ++ (to_string key ++ codes "}");
  field = λ d name. some d;
  to_json = λ d. d;
  from_json = λ text. some text;
}

abbrev view : List ℕ
view = codes "{v}"

-- A second insertion throws.
abbrev one_document : Collection texts
one_document = record {
  State = Bool;
  find_one = λ s d. some (some view);
  insert_one = λ s d. (s, false);
  delete_from = λ s n. (true, s);
  drop = λ s. (true, true);
}

abbrev backend : MongoBackend one_slot texts one_document
backend = record {
  cache = record { counter = 0; subpool_name = codes "t"; client = some none };
  cache_enabled = true;
  hit_count = 0;
  collection = true;
}

backend-IsCoherent : IsCoherent one_slot texts one_document backend
backend-IsCoherent = ((λ s t v e h. ground arith), λ s n rest v e later small h. ground arith)

backend-CanSend : CanSend one_slot texts one_document backend 7
unfolding full_key int_string to_string digits_of
backend-CanSend = record {
  filter_back = refl;
  text = omega arith;
  room = omega arith;
  view_back = λ d e. refl;
  view_send = λ d e.
      let is : view ≡ d = ground arith in
      subst
        (λ (x : List ℕ).
          IsSendable 500 (full_key one_slot backend.cache (filter one_slot texts one_document 7)) x)
        is (omega arith);
}

mongo_read_record-IsRead_example :
    IsRead one_slot texts one_document 1 backend 7
      (mongo_read_record one_slot texts one_document 1 backend 7)
mongo_read_record-IsRead_example =
    mongo_read_record-IsRead one_slot texts one_document 1 backend 7 backend-IsCoherent
      backend-CanSend

abbrev fields : List (List ℕ)
fields = codes "ab" ∷ []
