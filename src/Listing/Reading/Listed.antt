-- ===== src/Listing/Reading/Listed.antt =====
-- What a directory's listing shows.
use weave_gate.Common.{
  ℕ, String, ◌+◌, ◌≡◌, ◌⊎◌, inl, inr, refl, sym, ap, subst, false, Option, none, some, List, [],
  ◌∷◌, ◌++◌, length, map, Bool-cases, Option-cases, arith,
}
use weave_gate.Common.Pairs.{some_inj}
use weave_gate.Common.Text.{starts_with_char}
use weave_gate.Paths.{Component, push, components, strip_components}
use weave_gate.Paths.Granted.{strip_components_sound}
use weave_gate.Listing.{
  FileType, directory, file, FileEntry, Kind, a_directory, a_file, a_symlink, another, ItemMeta,
  Item, Volume,
}
use weave_gate.Listing.Reading.{
  DirListOpts, Renderers, target_type, link_type, kind_type, item_type, entry_uri, entry_of,
  read_entries, dirs_count, files_count,
}

module _ (v : Volume) (r : Renderers) (opts : DirListOpts) (root_path_abs parent : String) where
  -- A link that leads into the root.
  pub record IsInside (path : String) (t : FileType × Option ℕ) : Type 0 where
    pub target : String
    pub rest : List Component
    pub meta : ItemMeta
    pub resolved : v.canonicalize path ≡ some target
    pub inside : components target ≡ components root_path_abs ++ rest
    pub read : v.symlink_metadata target ≡ some meta
    pub same_type : t ≡ target_type meta

  -- What an item is, for its type and size to be listed.
  pub data IsShown (item : Item) (meta : ItemMeta) (t : FileType × Option ℕ) : Type 0 where
    shown_directory : meta.kind ≡ a_directory → t ≡ (directory, none) → IsShown item meta t
    shown_file : meta.kind ≡ a_file → t ≡ (file, some meta.size) → IsShown item meta t
    shown_link :
        meta.kind ≡ a_symlink
        → opts.disable_symlinks ≡ false
        → IsInside (push parent item.name) t
        → IsShown item meta t

  -- An entry for an item: under its name, and not hidden if hidden files are ignored.
  pub record IsListed (item : Item) (entry : FileEntry) : Type 0 where
    pub meta : ItemMeta
    pub metadata : item.metadata ≡ some meta
    pub visible : (opts.ignore_hidden_files ≡ false) ⊎ (starts_with_char b'.' item.name ≡ false)
    pub kind : IsShown item meta (entry.type_of, entry.size)
    pub name : entry.name ≡ item.name
    pub mtime : entry.mtime ≡ meta.modified
    pub uri : entry.uri ≡ entry_uri v r opts item.name entry.type_of

  link_type-IsInside :
      (path : String) (t : FileType × Option ℕ)
      → link_type v r opts root_path_abs path ≡ some t
      → IsInside path t
  unfolding link_type
  link_type-IsInside path t h = elim (Option-cases (v.canonicalize path)) [
    | inl e ↦ cc (rw (e, link_type) at h)
    | inr (target, e) ↦
        elim (Option-cases (strip_components (components target) (components root_path_abs))) [
          | inl f ↦ cc (rw (e, f, link_type) at h)
          | inr (rest, f) ↦ elim (Option-cases (v.symlink_metadata target)) [
            | inl g ↦ cc (rw (e, f, g, link_type) at h)
            | inr (meta, g) ↦ record {
              target = target;
              rest = rest;
              meta = meta;
              resolved = e;
              inside = strip_components_sound _ _ rest f;
              read = g;
              same_type = sym (some_inj (rw (e, f, g, link_type) at h));
            }
          ]
        ]
  ]

  Kind-cases : (k : Kind) → (k ≡ a_directory) ⊎ (k ≡ a_file) ⊎ (k ≡ a_symlink) ⊎ (k ≡ another)
  Kind-cases a_directory = inl refl
  Kind-cases a_file = inr (inl refl)
  Kind-cases a_symlink = inr (inr (inl refl))
  Kind-cases another = inr (inr (inr refl))

  kind_type-IsShown :
      (item : Item) (meta : ItemMeta) (t : FileType × Option ℕ)
      → kind_type v r opts root_path_abs parent item meta ≡ some t
      → IsShown item meta t
  unfolding kind_type link_type
  kind_type-IsShown item meta t h = elim (Kind-cases meta.kind) [
    | inl k ↦ shown_directory k (sym (some_inj (rw (k, kind_type) at h)))
    | inr (inl k) ↦ shown_file k (sym (some_inj (rw (k, kind_type) at h)))
    | inr (inr (inl k)) ↦ elim (Bool-cases opts.disable_symlinks) [
      | inl d ↦ cc (rw (k, d, kind_type) at h)
      | inr d ↦
          shown_link k d (link_type-IsInside (push parent item.name) t (rw (k, d, kind_type) at h))
    ]
    | inr (inr (inr k)) ↦ cc (rw (k, kind_type) at h)
  ]

  item_type-IsShown :
      (item : Item) (meta : ItemMeta) (t : FileType × Option ℕ)
      → item_type v r opts root_path_abs parent item meta ≡ some t
      → ((opts.ignore_hidden_files ≡ false) ⊎ (starts_with_char b'.' item.name ≡ false))
        × IsShown item meta t
  unfolding item_type kind_type link_type
  item_type-IsShown item meta t h = elim (Bool-cases opts.ignore_hidden_files) [
    | inr i ↦ (inl i, kind_type-IsShown item meta t (rw (i, item_type) at h))
    | inl i ↦ elim (Bool-cases (starts_with_char b'.' item.name)) [
      | inl d ↦ cc (rw (i, d, item_type) at h)
      | inr d ↦ (inr d, kind_type-IsShown item meta t (rw (i, d, item_type) at h))
    ]
  ]

  entry_of-IsListed :
      (item : Item) (entry : FileEntry)
      → entry_of v r opts root_path_abs parent item ≡ some entry
      → IsListed item entry
  unfolding entry_of item_type kind_type entry_uri
  entry_of-IsListed item entry h = elim (Option-cases item.metadata) [
    | inl e ↦ cc (rw (e, entry_of) at h)
    | inr (meta, e) ↦ elim (Option-cases (item_type v r opts root_path_abs parent item meta)) [
      | inl f ↦ cc (rw (e, f, entry_of) at h)
      | inr ((type_of, size), f) ↦
          let (visible, kind) = item_type-IsShown item meta (type_of, size) f in
          subst (IsListed item) (some_inj (rw (e, f, entry_of) at h)) (record {
            meta = meta;
            metadata = e;
            visible = visible;
            kind = kind;
            name = refl;
            mtime = refl;
            uri = refl;
          })
    ]
  ]

  -- The entries are those of some of the items, in their order; every other item has none.
  pub data AreListed : List Item → List FileEntry → Type 0 where
    no_items : AreListed [] []
    listed :
        {item : Item} {items : List Item} {entry : FileEntry} {entries : List FileEntry}
        → IsListed item entry
        → AreListed items entries
        → AreListed (item ∷ items) (entry ∷ entries)
    skipped :
        {item : Item} {items : List Item} {entries : List FileEntry}
        → entry_of v r opts root_path_abs parent item ≡ none
        → AreListed items entries
        → AreListed (item ∷ items) entries

  -- All of the items could be read, the entries are those listed of them, and the counts make these up.
  pub read_entries-AreListed :
      (items : List (Option Item)) (entries : List FileEntry)
      → read_entries v r opts root_path_abs parent items ≡ some entries
      → (found : List Item) × (items ≡ map some found)
        × AreListed found entries
        × (dirs_count v r opts entries + files_count v r opts entries ≡ length entries)
  unfolding read_entries dirs_count files_count
  read_entries-AreListed [] entries h = subst Reads (some_inj h) ([], refl, no_items, refl)
    where
      Reads : List FileEntry → Type 0
      Reads es =
          (found : List Item) × (◌≡◌ {A = List (Option Item)} [] (map some found))
          × AreListed found es
          × (dirs_count v r opts es + files_count v r opts es ≡ length es)
  read_entries-AreListed (none ∷ items) entries h = cc
  read_entries-AreListed (some item ∷ items) entries h =
      elim (Option-cases (entry_of v r opts root_path_abs parent item)) [
        | inl e ↦
            let (found, same, are, counts) =
              read_entries-AreListed items entries (rw (e, read_entries) at h) in
            (item ∷ found, ap (◌∷◌ (some item)) same, skipped e are, counts)
        | inr (entry, e) ↦ elim (Option-cases (read_entries v r opts root_path_abs parent items)) [
          | inl f ↦ cc (rw (e, f, read_entries) at h)
          | inr (rest, f) ↦
              let (found, same, are, counts) = read_entries-AreListed items rest f in
              let is = entry_of-IsListed item entry e in
              subst
                (λ (es : List FileEntry).
                  (found' : List Item) × (◌≡◌ {A = List (Option Item)} (some item ∷ items)
                    (map some found'))
                  × AreListed found' es
                  × (dirs_count v r opts es + files_count v r opts es ≡ length es))
                (some_inj (rw (e, f, read_entries) at h))
                (item ∷ found, ap (◌∷◌ (some item)) same, listed is are, ground (arith, counts))
        ]
      ]
