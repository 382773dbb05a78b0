-- ===== src/Codegen/Enums/Fields.antt =====
-- The members of one enum: their names are distinct unless the enum is refused.
use mathlib.Core.List.{foldl, Nodup, append-nil, append_assoc, map-append}
use mathlib.Core.List.Perm
use effect_opcua.Prelude.{
  ◌≤◌, String, Option, none, some, List, [], ◌∷◌, ◌++◌, map, Bool, ◌≡◌, refl, sym, ap, subst, ◌∙◌,
  arith, length,
}
use effect_opcua.Prelude.Maps.{Map, get}
use effect_opcua.Prelude.Groups.{items, push, group_from, values_at, items-group_from, keys-Nodup}
use effect_opcua.Prelude.Sort.{sort, sort-perm}
use effect_opcua.Prelude.Text.{◌<>◌}
use effect_opcua.Codegen.Types.{EnumField, EnumMember}
use effect_opcua.Codegen.Names.{sanitize_pascal}
use effect_opcua.Codegen.Enums.{
  Members, text_of, find_collision, member_as, add_field, enum_members,
}

abbrev member_name_or : EnumField → Option String → String
member_name_or field none = "_Value" <> text_of field.value
member_name_or field (some name) = name

-- The generated name of a field, and the pair that is grouped.
abbrev pub member_name : EnumField → String
member_name field = member_name_or field (sanitize_pascal field.name)

abbrev pub pairs : List EnumField → List (String × String)
pairs = map (λ field. (member_name field, field.name))

keys-pairs :
    (fields : List EnumField)
    → map (λ (p : String × String). p.0) (pairs fields) ≡ map member_name fields
keys-pairs [] = refl
keys-pairs (f ∷ fields) = ap (λ l. member_name f ∷ l) (keys-pairs fields)

pub find_collision-none :
    (m : Map (List String)) (k : String) → find_collision m ≡ none → length (items k m) ≤ 1
unfolding find_collision get
find_collision-none [] k h = omega arith
find_collision-none ((j, vs) ∷ m) k h = ground (arith, find_collision-none m k)

module _ (node_id : String) where
  groups-add_field :
      (m : Members) (field : EnumField)
      → (add_field node_id m field).groups ≡ push (member_name field) field.name m.groups
  unfolding add_field
  groups-add_field m field = by_name (sanitize_pascal field.name)
    where
      by_name :
          (o : Option String)
          → (member_as node_id m field o).groups ≡ push (member_name_or field o) field.name m.groups
      by_name none = refl
      by_name (some name) = refl

  members-add_field :
      (m : Members) (field : EnumField)
      → map (λ (e : EnumMember). e.name) (add_field node_id m field).members
        ≡ map (λ (e : EnumMember). e.name) m.members ++ member_name field ∷ []
  unfolding add_field
  members-add_field m field = by_name (sanitize_pascal field.name)
    where
      by_name :
          (o : Option String)
          → map (λ (e : EnumMember). e.name) (member_as node_id m field o).members
            ≡ map (λ (e : EnumMember). e.name) m.members ++ member_name_or field o ∷ []
      by_name none = map-append _ _ _
      by_name (some name) = map-append _ _ _

  groups-foldl :
      (fields : List EnumField) (m : Members)
      → (foldl (add_field node_id) m fields).groups ≡ group_from m.groups (pairs fields)
  unfolding group_from
  groups-foldl [] m = refl
  groups-foldl (f ∷ fields) m =
      groups-foldl fields (add_field node_id m f)
      ∙ ap (λ g. group_from g (pairs fields)) (groups-add_field m f)

  members-foldl :
      (fields : List EnumField) (m : Members)
      → map (λ (e : EnumMember). e.name) (foldl (add_field node_id) m fields).members
        ≡ map (λ (e : EnumMember). e.name) m.members ++ map member_name fields
  members-foldl [] m = simp append-nil
  members-foldl (f ∷ fields) m =
      members-foldl fields (add_field node_id m f)
      ∙ (ap (λ l. l ++ map member_name fields) (members-add_field m f)
          ∙ append_assoc (map (λ (e : EnumMember). e.name) m.members) (member_name f ∷ [])
              (map member_name fields))

  single_values :
      (fields : List EnumField)
      → find_collision (enum_members node_id fields).groups ≡ none
      → (k : String) → length (values_at k (pairs fields)) ≤ 1
  unfolding enum_members get
  single_values fields h k =
      let start : Members = record { groups = []; members = []; issues = [] } in
      let same : items k (foldl (add_field node_id) start fields).groups
          ≡ values_at k (pairs fields) =
        ap (items k) (groups-foldl fields start) ∙ items-group_from [] (pairs fields) k in
      subst (λ l. length l ≤ 1) same
        (find_collision-none (foldl (add_field node_id) start fields).groups k h)

  -- Sorted members have distinct names if no group of names has two candidates.
  pub members-Nodup :
      (le : EnumMember → EnumMember → Bool) (fields : List EnumField)
      → find_collision (enum_members node_id fields).groups ≡ none
      → Nodup (map (λ (e : EnumMember). e.name) (sort le (enum_members node_id fields).members))
  unfolding enum_members
  members-Nodup le fields h =
      let start : Members = record { groups = []; members = []; issues = [] } in
      let names = members-foldl fields start in
      let distinct =
        subst Nodup (keys-pairs fields) (keys-Nodup (pairs fields) (single_values fields h)) in
      Perm.nodup
        (Perm.symm (
          Perm.map (λ (e : EnumMember). e.name)
            (sort-perm le (enum_members node_id fields).members)))
        (subst Nodup (sym names) distinct)
