-- ===== src/Manager/Persistence/Listing.antt =====
-- What the store lists after a save (crates/download-manager/src/persistence.rs).
use mathlib.Core.List.{Memᴰ}
use mathlib.Core.List.Memᴰ
use open_download_manager.Prelude.{
  ◌≡◌, ◌≢◌, refl, sym, ap, subst, ◌∙◌, ◌⊎◌, inl, inr, List, [], ◌∷◌,
}
use open_download_manager.Core.Error.{ok}
use open_download_manager.Core.Libs.{Libs, RoundTrips}
use open_download_manager.Manager.Download.{Download}
use open_download_manager.Manager.Persistence.Columns.{
  Row, Sql, fine, broken, ◌>>=◌, row_of, row_to_download,
}
use open_download_manager.Manager.Persistence.{Sqlite, collect, map_db_err, save, list}
use open_download_manager.Manager.Persistence.Rest.{at_rest, row_to_download-row_of}

abbrev pub all_fine : {A : Type 0} → List A → List (Sql A)
all_fine [] = []
all_fine (a ∷ rest) = fine a ∷ all_fine rest

-- The table of the downloads as the statements change and read it.
pub record IsTable (S : Sqlite) : Type 1 where
  pub table : S.Conn → List Row
  pub select : (c : S.Conn) (l : List (Sql Row)) → S.select_rows c ≡ fine l → l ≡ all_fine (table c)
  pub insert-has :
      (r : Row) (c later : S.Conn) → S.insert_or_replace r c ≡ fine later → Memᴰ r (table later)
  pub insert-from :
      (r x : Row) (c later : S.Conn)
      → S.insert_or_replace r c ≡ fine later
      → Memᴰ x (table later)
      → (x ≡ r) ⊎ (Memᴰ x (table c) × (x.id ≢ r.id))
  pub insert-keeps :
      (r x : Row) (c later : S.Conn)
      → S.insert_or_replace r c ≡ fine later
      → Memᴰ x (table c)
      → x.id ≢ r.id
      → Memᴰ x (table later)

map_db_err-ok : (S : Sqlite) {A : Type 0} (r : Sql A) (a : A) → map_db_err S r ≡ ok a → r ≡ fine a
unfolding map_db_err
map_db_err-ok S (fine b) a h = cc
map_db_err-ok S (broken e) a h = cc

pub >>=-fine :
    {A B : Type 0} (r : Sql A) (rest : A → Sql B) (b : B)
    → (r >>= rest) ≡ fine b
    → (a : A) × (r ≡ fine a) × (rest a ≡ fine b)
>>=-fine (broken e) rest b h = cc
>>=-fine (fine a) rest b h = (a, refl, h)

module _ {A B : Type 0} (f : A → Sql B) where
  collect-cons :
      (a : A) (rest : List (Sql A)) (bs : List B)
      → collect f (fine a ∷ rest) ≡ fine bs
      → (b : B) × (more : List B) × (f a ≡ fine b) × (collect f rest ≡ fine more) × (bs ≡ b ∷ more)
  unfolding collect
  collect-cons a rest bs h =
      let (b, e, h') = >>=-fine (f a) (λ b. collect f rest >>= λ more. fine (b ∷ more)) bs h in
      let (more, e', h'') = >>=-fine (collect f rest) (λ more. fine (b ∷ more)) bs h' in
      (b, more, e, e', cc)

  collect-has :
      (l : List A) (bs : List B) (a : A) (b : B)
      → collect f (all_fine l) ≡ fine bs
      → Memᴰ a l
      → f a ≡ fine b
      → Memᴰ b bs
  collect-has [] bs a b h m e = absurd (Memᴰ.not-nil m)
  collect-has (x ∷ l) bs a b h m e =
      let (first, more, here, later, same) = collect-cons x (all_fine l) bs h in
      subst (Memᴰ b) (sym same)
        (go first more here (Memᴰ.cases_cons m) (λ m'. collect-has l more a b later m' e))
    where
      go :
          (first : B) (more : List B)
          → f x ≡ fine first
          → (a ≡ x) ⊎ Memᴰ a l
          → (Memᴰ a l → Memᴰ b more)
          → Memᴰ b (first ∷ more)
      go first more here (inl same) later =
          let both : fine b ≡ fine first = sym e ∙ ap f same ∙ here in Memᴰ.head cc
      go first more here (inr m') later = Memᴰ.tail (later m')

module _ (S : Sqlite) (T : IsTable S) (L : Libs) (trips : RoundTrips L) where
  save-ok :
      (d : Download L) (c later : S.Conn)
      → save S c d ≡ ok later
      → S.insert_or_replace (row_of L d) c ≡ fine later
  unfolding save
  save-ok d c later h = map_db_err-ok S (S.insert_or_replace (row_of L d) c) later h

  -- A list that succeeds has read every row of the table.
  list-ok :
      (c : S.Conn) (ds : List (Download L))
      → list S c ≡ ok ds
      → collect (row_to_download L) (all_fine (T.table c)) ≡ fine ds
  unfolding list
  list-ok c ds h =
      let (l, e, read) =
        >>=-fine (S.select_rows c) (collect (row_to_download L)) ds
          (map_db_err-ok S (S.select_rows c >>= collect (row_to_download L)) ds h) in
      ap (collect (row_to_download L)) (sym (T.select c l e)) ∙ read

  -- A record that was saved is in any list that is read afterwards.
  pub saved_listed :
      (d : Download L) (c later : S.Conn) (after : List (Download L))
      → save S c d ≡ ok later
      → list S later ≡ ok after
      → Memᴰ (at_rest L d) after
  saved_listed d c later after saved listed =
      collect-has (row_to_download L) (T.table later) after (row_of L d) (at_rest L d)
        (list-ok later after listed) (T.insert-has (row_of L d) c later (save-ok d c later saved))
        (row_to_download-row_of L d trips)
