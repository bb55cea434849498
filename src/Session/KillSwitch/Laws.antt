-- ===== src/Session/KillSwitch/Laws.antt =====
-- The kill switch's memory and table (governance/admin.go, killswitch_store.go) read against each
-- other.
use ai_governance_orchestrat.Prelude.Dict.{lookup, lookup-insert}
use ai_governance_orchestrat.Prelude.{
  String, Bool, true, false, not, ◌&&◌, ◌||◌, List, [], ◌∷◌, ◌≡◌, refl, sym, arith, ◌∙◌, ◌==◌,
  eq_iff, eq_refl, if◌then◌else◌, Option-cases, inl, inr, Bool-cases,
}
use ai_governance_orchestrat.Session.KillSwitch.{
  SwitchState, SqliteSwitch, is_member, without_member, ids_of, is_blocked, block, unblock, has_row,
  without_row, load_rows, open_switch, with_row, row_dropped, block_row, unblock_row,
}

is_member-without :
    (id other : String) (ids : List String)
    → is_member other (without_member id ids) ≡ (is_member other ids && not (id == other))
unfolding is_member without_member
is_member-without id other [] = refl
is_member-without id other (own ∷ ids) =
    let tail = is_member-without id other ids in
    ground (arith, tail, eq_iff own id, eq_iff own other, eq_iff id other)

has_row-without :
    (scope id s i : String) (rows : List (String × String))
    → has_row s i (without_row scope id rows) ≡ (has_row s i rows && not (scope == s && id == i))
unfolding has_row without_row
has_row-without scope id s i [] = refl
has_row-without scope id s i ((s', i') ∷ rows) =
    let tail = has_row-without scope id s i rows in
    ground (
      arith,
      tail,
      eq_iff s' scope,
      eq_iff i' id,
      eq_iff s' s,
      eq_iff i' i,
      eq_iff scope s,
      eq_iff id i,
    )

is_member-added :
    (id other : String) (ids : List String)
    → is_member other (if is_member id ids then ids else id ∷ ids)
      ≡ (id == other || is_member other ids)
unfolding is_member
is_member-added id other ids = elim (Bool-cases (is_member id ids)) [
  | inl among ↦ rw among (elim (Bool-cases (id == other)) [
    | inl same ↦ rw (same, sym ((eq_iff id other).0 same)) among
    | inr differs ↦ rw differs refl
  ])
  | inr new ↦ rw new refl
]

pub is_blocked-block :
    (scope id s i : String) (state : SwitchState)
    → is_blocked (block scope id state) s i ≡ (scope == s && id == i || is_blocked state s i)
unfolding is_blocked block
is_blocked-block scope id s i state = rw lookup-insert (elim (Bool-cases (scope == s)) [
  | inl same ↦
      rw (same, sym ((eq_iff scope s).0 same))
        (ground (arith, is_member-added id i (ids_of (lookup scope state))))
  | inr other ↦ rw other refl
])

pub is_blocked-unblock :
    (scope id s i : String) (state : SwitchState)
    → is_blocked (unblock scope id state) s i
      ≡ (is_blocked state s i && not (scope == s && id == i))
unfolding is_blocked unblock is_member lookup
is_blocked-unblock scope id s i state = elim (Option-cases (lookup scope state)) [
  | inl missing ↦ rw missing (elim (Bool-cases (scope == s)) [
    | inl same ↦ rw (same, sym ((eq_iff scope s).0 same), missing) refl
    | inr other ↦ rw other (ground arith)
  ])
  | inr (ids, found) ↦
      rw (found, lookup-insert)
        (elim (Bool-cases (scope == s)) [
          | inl same ↦
              rw (same, sym ((eq_iff scope s).0 same), found)
                (ground (arith, is_member-without id i ids))
          | inr other ↦ rw other (ground arith)
        ])
]

-- The memory blocks exactly what the table has a row for.
abbrev pub Agrees : SqliteSwitch → Type 0
Agrees switch = (scope id : String) → is_blocked switch.mem scope id ≡ has_row scope id switch.rows

load_rows-blocked :
    (rows : List (String × String)) (mem : SwitchState) (s i : String)
    → is_blocked (load_rows rows mem) s i ≡ (has_row s i rows || is_blocked mem s i)
unfolding load_rows has_row
load_rows-blocked [] mem s i = refl
load_rows-blocked ((scope, id) ∷ rows) mem s i =
    rw (load_rows-blocked rows (block scope id mem) s i, is_blocked-block) (ground arith)

-- The calls on a switch, and whether their statement fails; each runs alone.
pub data SwitchCall : Type 0 where
  blocked unblocked : Bool → String → String → SwitchCall

abbrev pub call_switch : SwitchCall → SqliteSwitch → SqliteSwitch
call_switch (blocked broken scope id) switch = (block_row broken (λ s. s) scope id switch).1
call_switch (unblocked broken scope id) switch = (unblock_row broken (λ s. s) scope id switch).1

abbrev pub call_all : List SwitchCall → SqliteSwitch → SqliteSwitch
call_all [] switch = switch
call_all (c ∷ cs) switch = call_all cs (call_switch c switch)

has_row-added :
    (scope id s i : String) (rows : List (String × String))
    → has_row s i (if has_row scope id rows then rows else (scope, id) ∷ rows)
      ≡ (scope == s && id == i || has_row s i rows)
unfolding has_row
has_row-added scope id s i rows = elim (Bool-cases (has_row scope id rows)) [
  | inl among ↦ rw among (ground (arith, eq_iff scope s, eq_iff id i))
  | inr new ↦ rw new refl
]

call_switch-Agrees :
    (c : SwitchCall) (switch : SqliteSwitch) → Agrees switch → Agrees (call_switch c switch)
unfolding block_row unblock_row
call_switch-Agrees (blocked true scope id) switch h s i = h s i
call_switch-Agrees (blocked false scope id) switch h s i =
    rw (is_blocked-block, has_row-added, h s i) refl
call_switch-Agrees (unblocked true scope id) switch h s i = h s i
call_switch-Agrees (unblocked false scope id) switch h s i =
    rw (is_blocked-unblock, has_row-without, h s i) refl

call_all-Agrees :
    (cs : List SwitchCall) (switch : SqliteSwitch) → Agrees switch → Agrees (call_all cs switch)
call_all-Agrees [] switch h = h
call_all-Agrees (c ∷ cs) switch h =
    call_all-Agrees cs (call_switch c switch) (call_switch-Agrees c switch h)

-- A kill switch that is opened on a table, and then called one call after the other, failing
-- statements included, answers IsBlocked as its table says.
pub open_switch-Agrees :
    (rows : List (String × String)) (cs : List SwitchCall) → Agrees (call_all cs (open_switch rows))
unfolding open_switch is_blocked is_member lookup
open_switch-Agrees rows cs =
    call_all-Agrees cs (open_switch rows) λ s i. rw (load_rows-blocked rows [] s i) (ground arith)

-- A switch opened again on the table that any calls left blocks exactly what it blocked before.
pub open_switch-restart :
    (rows : List (String × String)) (cs : List SwitchCall) (scope id : String)
    → let switch = call_all cs (open_switch rows) in
      is_blocked (open_switch switch.rows).mem scope id ≡ is_blocked switch.mem scope id
unfolding open_switch is_blocked
open_switch-restart rows cs scope id =
    let switch = call_all cs (open_switch rows) in
    open_switch-Agrees switch.rows [] scope id ∙ sym (open_switch-Agrees rows cs scope id)

nothing_blocked : (scope id : String) → is_blocked [] scope id ≡ false
unfolding is_blocked is_member lookup
nothing_blocked scope id = refl

-- Calls of the same identifier that overlap part the two. A Block with an Unblock between its
-- statement and its memory leaves the identifier blocked with no row, until the table is opened
-- again; an Unblock with a Block between leaves it with a row and not blocked.
pub block_row-overlapped :
    (scope id : String) (switch : SqliteSwitch)
    → let stuck =
        (block_row false (λ s. (unblock_row false (λ t. t) scope id s).1) scope id switch).1 in
      let lost =
        (unblock_row false (λ s. (block_row false (λ t. t) scope id s).1) scope id switch).1 in
      (is_blocked stuck.mem scope id ≡ true)
      × (has_row scope id stuck.rows ≡ false)
      × (is_blocked (open_switch stuck.rows).mem scope id ≡ false)
      × (is_blocked lost.mem scope id ≡ false)
      × (has_row scope id lost.rows ≡ true)
unfolding block_row unblock_row open_switch
block_row-overlapped scope id switch =
    let dropped = has_row-without scope id scope id (with_row scope id switch).rows in
    let added = has_row-added scope id scope id (row_dropped scope id switch).rows in
    (
      rw (is_blocked-block, eq_refl scope, eq_refl id) refl,
      rw (dropped, eq_refl scope, eq_refl id) (ground arith),
      rw (load_rows-blocked, dropped, eq_refl scope, eq_refl id, nothing_blocked) (ground arith),
      rw (is_blocked-unblock, eq_refl scope, eq_refl id) (ground arith),
      rw (added, eq_refl scope, eq_refl id) refl,
    )
