-- ===== src/Listing/Reading/Answered.antt =====
-- The answer with a directory's listing.
use weave_gate.Common.{
  String, ◌+◌, ◌≡◌, ◌⊎◌, inl, inr, refl, sym, Option, some, List, map, length, Option-cases,
}
use weave_gate.Http.{Http, Response}
use weave_gate.Choice.{pop}
use weave_gate.Listing.{
  FileEntry, Item, ReadError, not_found, permission_denied, other_error, Volume,
}
use weave_gate.Listing.Reading.{
  DirListOpts, Renderers, Page, made, read_entries, dirs_count, files_count, content, page_of,
  read_dir_entries, auto_index,
}
use weave_gate.Listing.Reading.Listed.{AreListed, read_entries-AreListed}

module _ (v : Volume) (r : Renderers) (opts : DirListOpts) (L : Http) where
  -- A page over the entries of a directory whose items could all be read.
  pub record IsListing (parent : String) (resp : Response L) : Type 0 where
    pub root : String
    pub items : List Item
    pub entries : List FileEntry
    pub text : String
    pub resolved : v.canonicalize opts.root_path ≡ some root
    pub read : v.read_dir parent ≡ inr (map some items)
    pub listed : AreListed v r opts root parent items entries
    pub counted : dirs_count v r opts entries + files_count v r opts entries ≡ length entries
    pub rendered : content v r opts entries ≡ some text
    pub answer : resp ≡ page_of v r opts L text

  made_inj : {a b : Response L} → ◌≡◌ {A = Page L} (made a) (made b) → a ≡ b
  made_inj h = cc

  read_dir_entries-IsListing :
      (parent : String) (items : List (Option Item)) (resp : Response L)
      → v.read_dir parent ≡ inr items
      → read_dir_entries v r opts L parent items ≡ made resp
      → IsListing parent resp
  unfolding read_dir_entries
  read_dir_entries-IsListing parent items resp d h =
      elim (Option-cases (v.canonicalize opts.root_path)) [
        | inl e ↦ cc (rw (e, read_dir_entries) at h)
        | inr (root, e) ↦ elim (Option-cases (read_entries v r opts root parent items)) [
          | inl f ↦ cc (rw (e, f, read_dir_entries) at h)
          | inr (entries, f) ↦ elim (Option-cases (content v r opts entries)) [
            | inl g ↦ cc (rw (e, f, g, read_dir_entries) at h)
            | inr (text, g) ↦
                let (found, same, are, counts) =
                  read_entries-AreListed v r opts root parent items entries f in
                record {
                  root = root;
                  items = found;
                  entries = entries;
                  text = text;
                  resolved = e;
                  read = rw same at d;
                  listed = are;
                  counted = counts;
                  rendered = g;
                  answer = sym (made_inj (rw (e, f, g, read_dir_entries) at h));
                }
          ]
        ]
      ]

  ReadError-cases :
      (x : ReadError ⊎ List (Option Item))
      → ((e : ReadError) × (x ≡ inl e)) ⊎ ((items : List (Option Item)) × (x ≡ inr items))
  ReadError-cases (inl e) = inl (e, refl)
  ReadError-cases (inr items) = inr (items, refl)

  -- A listing is answered for the directory of the file that was looked for, when the directory and
  -- all of its items can be read, and shows the page over their entries: an item is listed in its place
  -- and under its name or skipped. Of those listed none is hidden if hidden files are ignored; each
  -- is a directory, a file, or, unless links are disabled, a link to something in the root, of whose
  -- target it has the type and the size. The counts of directories and of files make up the entries.
  pub auto_index-IsListing :
      (filepath : String) (resp : Response L)
      → auto_index v r opts L filepath ≡ made resp
      → IsListing (pop filepath) resp
  unfolding auto_index
  auto_index-IsListing filepath resp h = elim (ReadError-cases (v.read_dir (pop filepath))) [
    | inr (items, e) ↦
        read_dir_entries-IsListing (pop filepath) items resp e (rw (e, auto_index) at h)
    | inl (not_found, e) ↦ cc (rw (e, auto_index) at h)
    | inl (permission_denied, e) ↦ cc (rw (e, auto_index) at h)
    | inl (other_error, e) ↦ cc (rw (e, auto_index) at h)
  ]
