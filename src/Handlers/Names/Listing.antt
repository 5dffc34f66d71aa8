-- ===== src/Handlers/Names/Listing.antt =====
-- internal/handlers/handlers.go, internal/virsh/virsh.go: accepted snapshot names in the listing of virsh.
use zvm_extra.Base.{
  ℕ, zero, suc, ◌≡◌, ◌≢◌, ◌⊎◌, refl, ap, sym, subst, ◌∙◌, true, false, some, List, [], ◌∷◌, ◌++◌,
  arith, All, Bool-cases, inl, inr, map,
}
use zvm_extra.Bytes.{Bytes, is_space, trim_space, has_prefix, bytes_eq, split}
use zvm_extra.Bytes.Laws.{bytes_eq_iff}
use zvm_extra.Bytes.Trim.{trimmed_first, trim_space-Spaces, Spaces}
use zvm_extra.Virsh.Tables.{
  Snapshot, snapshot_of, split_from, split_columns, read_rows, read_table, rows, is_rule,
  mark_current, list_snapshots,
}
use zvm_extra.Virsh.Tables.Columns.{IsColumn, AllColumns, spaces, print, texts, split_columns-print}
use zvm_extra.Handlers.Names.{empty_or_flag, valid_snapshot_name}
use zvm_extra.Handlers.Names.Laws.{valid_snapshot_name-IsColumn, valid-Guards}

-- A snapshot as `virsh snapshot-list --parent` prints it: its columns, where the last is empty if it has
-- no parent, and the blanks before them, beyond the usual between them, and behind them.
pub record Row : Type 0 where
  pub name : Bytes
  pub created_at : Bytes
  pub state : Bytes
  pub parent : Bytes
  pub lead : ℕ
  pub gap : ℕ
  pub wide : ℕ
  pub more : ℕ
  pub trail : ℕ

-- The state and the parent.
unfoldable pub last_columns : ℕ → ℕ → Bytes → Bytes → List (ℕ × Bytes)
last_columns more trail state [] = (trail, state) ∷ []
last_columns more trail state (c ∷ parent) = (more, state) ∷ (trail, c ∷ parent) ∷ []

unfoldable pub columns : Row → List (ℕ × Bytes)
unfolding last_columns
columns r = (r.gap, r.name) ∷ (r.wide, r.created_at) ∷ last_columns r.more r.trail r.state r.parent

-- The line that virsh prints of it.
unfoldable pub line_of : Row → Bytes
unfolding columns
line_of r = spaces r.lead ++ print (columns r)

-- What the page shows of it, where `cur` is the current snapshot.
unfoldable pub shown : Bytes → Row → Snapshot
shown cur r = record {
  name = r.name;
  created_at = r.created_at;
  state = r.state;
  parent = r.parent;
  description = [];
  current = bytes_eq r.name cur;
}

-- Its name and that of its parent, if it has one, were accepted, and the other two columns are texts
-- that virsh prints.
pub record IsListed (r : Row) : Type 0 where
  pub accepted : valid_snapshot_name r.name ≡ true
  pub created : IsColumn r.created_at
  pub standing : IsColumn r.state
  pub child : (r.parent ≡ []) ⊎ (valid_snapshot_name r.parent ≡ true)

parent-IsColumn :
    (c : ℕ) (p : Bytes) → ((c ∷ p) ≡ []) ⊎ (valid_snapshot_name (c ∷ p) ≡ true) → IsColumn (c ∷ p)
parent-IsColumn c p (inl e) = absurd (cc (e))
parent-IsColumn c p (inr h) = valid_snapshot_name-IsColumn (c ∷ p) h

last_columns-AllColumns :
    (more trail : ℕ) (state parent : Bytes)
    → IsColumn state
    → (parent ≡ []) ⊎ (valid_snapshot_name parent ≡ true)
    → AllColumns (last_columns more trail state parent)
unfolding last_columns
last_columns-AllColumns more trail state [] hs hp = (hs, tt)
last_columns-AllColumns more trail state (c ∷ p) hs hp = (hs, (parent-IsColumn c p hp, tt))

row_columns : (r : Row) → IsListed r → AllColumns (columns r)
unfolding columns
row_columns r h = (
  valid_snapshot_name-IsColumn r.name h.accepted,
  (h.created, last_columns-AllColumns r.more r.trail r.state r.parent h.standing h.child),
)

row_read :
    (r : Row)
    → IsListed r
    → split_columns (line_of r)
      ≡ r.name ∷ r.created_at ∷ texts (last_columns r.more r.trail r.state r.parent)
unfolding line_of columns
row_read r h = split_columns-print r.lead (columns r) (row_columns r h)

Spaces-spaces : (n : ℕ) → Spaces (spaces n)
unfolding is_space
Spaces-spaces zero = tt
Spaces-spaces (suc n) = (refl, Spaces-spaces n)

rule_false : (x : ℕ) (line r : Bytes) → trim_space line ≡ x ∷ r → x ≢ b'-' → is_rule line ≡ false
unfolding is_rule has_prefix
rule_false x line r e ne = rw e (ground arith)

no_flag : (x : ℕ) (s : Bytes) → empty_or_flag (x ∷ s) ≡ false → x ≢ b'-'
no_flag x s h = ground arith

-- A row is no line of dashes.
row_no_rule :
    (lead x : ℕ) (s tail : Bytes)
    → valid_snapshot_name (x ∷ s) ≡ true
    → is_rule (spaces lead ++ ((x ∷ s) ++ tail)) ≡ false
row_no_rule lead x s tail h =
    let g = valid-Guards (x ∷ s) h in
    let trimmed = sym ((bytes_eq_iff (x ∷ s) (trim_space (x ∷ s))).0 g.trimmed) in
    let (r, e) =
      trim_space-Spaces (spaces lead) x (s ++ tail) (Spaces-spaces lead)
        (trimmed_first x s trimmed) in
    rule_false x (spaces lead ++ ((x ∷ s) ++ tail)) r e (no_flag x s g.nonempty)

line_no_rule : (r : Row) → IsListed r → is_rule (line_of r) ≡ false
unfolding line_of columns print
line_no_rule r h =
    let c = valid_snapshot_name-IsColumn r.name h.accepted in
    let e = c.spelled in
    let ok : valid_snapshot_name (c.first ∷ c.rest) ≡ true =
      subst (λ n. valid_snapshot_name n ≡ true) e h.accepted in
    rw e (row_no_rule r.lead c.first c.rest _ ok)

some_name : (s : Bytes) → IsColumn s → bytes_eq s [] ≡ false
unfolding bytes_eq
some_name s c = rw c.spelled refl

-- What a row becomes before the current snapshot is marked.
pub plain : Row → Snapshot
unfolding shown
plain r = shown [] r

columns_snapshot :
    (name created state parent : Bytes) (more trail : ℕ)
    → bytes_eq name [] ≡ false
    → snapshot_of (name ∷ created ∷ texts (last_columns more trail state parent))
      ≡ some (record {
        name = name;
        created_at = created;
        state = state;
        parent = parent;
        description = [];
        current = false;
      })
unfolding snapshot_of last_columns
columns_snapshot name created state [] more trail h = rw h refl
columns_snapshot name created state (c ∷ p) more trail h = rw h refl

row_snapshot :
    (r : Row)
    → IsListed r
    → snapshot_of (r.name ∷ r.created_at ∷ texts (last_columns r.more r.trail r.state r.parent))
      ≡ some (plain r)
unfolding plain shown
row_snapshot r h =
    let named = some_name r.name (valid_snapshot_name-IsColumn r.name h.accepted) in
    columns_snapshot r.name r.created_at r.state r.parent r.more r.trail named
    ∙ ap some (
        ap
          (λ b. record {
            name = r.name;
            created_at = r.created_at;
            state = r.state;
            parent = r.parent;
            description = [];
            current = b;
          })
          (sym named))

read_cons :
    (line : Bytes) (lines : List Bytes) (s : Snapshot)
    → is_rule line ≡ false
    → snapshot_of (split_columns line) ≡ some s
    → read_rows snapshot_of (line ∷ lines) ≡ s ∷ read_rows snapshot_of lines
unfolding read_rows
read_cons line lines s e f = ground (arith, e, f)

-- An empty line is passed over.
read_empty : (lines : List Bytes) → read_rows snapshot_of ([] ∷ lines) ≡ read_rows snapshot_of lines
unfolding read_rows is_rule split_columns split_from trim_space has_prefix snapshot_of
read_empty lines = refl

read_ends : (ends : List Bytes) → All (λ l. l ≡ []) ends → read_rows snapshot_of ends ≡ []
read_ends [] h = unfold read_rows in refl
read_ends (l ∷ ends) (e, h) = rw e (read_empty ends ∙ read_ends ends h)

rows_read :
    (rs : List Row) (ends : List Bytes)
    → All IsListed rs
    → All (λ l. l ≡ []) ends
    → read_rows snapshot_of (map line_of rs ++ ends) ≡ map plain rs
rows_read [] ends h he = read_ends ends he
rows_read (r ∷ rs) ends (hr, h) he =
    read_cons (line_of r) (map line_of rs ++ ends) (plain r) (line_no_rule r hr)
      (ap snapshot_of (row_read r hr) ∙ row_snapshot r hr)
    ∙ ap (λ t. plain r ∷ t) (rows_read rs ends h he)

marked :
    (cur : Bytes) (rs : List Row)
    → All IsListed rs
    → mark_current cur (map plain rs) ≡ map (shown cur) rs
unfolding mark_current plain shown
marked cur [] h = refl
marked cur (r ∷ rs) (hr, h) =
    ground
      (arith, marked cur rs h, some_name r.name (valid_snapshot_name-IsColumn r.name hr.accepted))

-- Marking with no current snapshot changes nothing.
unmarked : (rs : List Row) → All IsListed rs → mark_current [] (map plain rs) ≡ map plain rs
unfolding mark_current plain shown
unmarked [] h = refl
unmarked (r ∷ rs) (hr, h) =
    ground
      (arith, unmarked rs h, some_name r.name (valid_snapshot_name-IsColumn r.name hr.accepted))

plain_list :
    (out : Bytes) {snaps : List Snapshot}
    → read_table snapshot_of out ≡ snaps
    → list_snapshots out [] ≡ snaps
unfolding list_snapshots bytes_eq
plain_list out e = e

marked_list :
    (out cur : Bytes) {snaps : List Snapshot}
    → read_table snapshot_of out ≡ snaps
    → bytes_eq cur [] ≡ false
    → list_snapshots out cur ≡ mark_current cur snaps
unfolding list_snapshots
marked_list out cur e b = rw (e, b)

-- Snapshots of accepted names are listed as they are: where the rows that virsh prints behind the
-- line of dashes are those of these snapshots and then empty lines, ListSnapshots gives each of them, in their order,
-- with its own name, time, state and parent, and marks the current one and no other.
pub list_snapshots_shows :
    (out cur : Bytes) (rs : List Row) (ends : List Bytes)
    → All IsListed rs
    → All (λ l. l ≡ []) ends
    → rows (split out b'\n') ≡ map line_of rs ++ ends
    → list_snapshots out cur ≡ map (shown cur) rs
list_snapshots_shows out cur rs ends h he e =
    let table : read_table snapshot_of out ≡ map plain rs =
      unfold read_table in rw e (rows_read rs ends h he) in
    elim (Bool-cases (bytes_eq cur [])) [
      | inl blank ↦
          let nil : cur ≡ [] = (bytes_eq_iff cur []).0 blank in
          rw nil (plain_list out table ∙ sym (unmarked rs h) ∙ marked [] rs h)
      | inr set ↦ marked_list out cur table set ∙ marked cur rs h
    ]
