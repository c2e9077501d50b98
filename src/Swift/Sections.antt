-- ===== src/Swift/Sections.antt =====
-- crates/grafted-frameworks/src/swift_sections.rs: a binary's Swift sections are handed to the runtime.
-- What `dlsym` finds and what goblin reads are parameters; a file that cannot be parsed is `none`.
use grafted.Base.{
  ℕ, ◌+◌, Bool, true, false, List, [], ◌∷◌, Option, none, some, ◌==◌, nat_eq, list_eq,
  if◌then◌else◌, u64, codes, Bytes,
}
use grafted.Loader.Format.{Section}

pub record SectionRange : Type 0 where
  pub start : ℕ
  pub length : ℕ

pub record MetadataSections : Type 0 where
  pub version : ℕ
  pub base_address : ℕ
  pub swift5_protocols : SectionRange
  pub swift5_protocol_conformances : SectionRange
  pub swift5_type_metadata : SectionRange
  pub swift5_typeref : SectionRange
  pub swift5_reflstr : SectionRange
  pub swift5_fieldmd : SectionRange
  pub swift5_assocty : SectionRange
  pub swift5_replace : SectionRange
  pub swift5_replac2 : SectionRange
  pub swift5_builtin : SectionRange
  pub swift5_capture : SectionRange
  pub swift5_mpenum : SectionRange
  pub swift5_accessible : SectionRange
  pub swift5_runtime_attributes : SectionRange

abbrev pub no_range : SectionRange
no_range = record { start = 0; length = 0 }

abbrev pub empty_sections : ℕ → MetadataSections
empty_sections base_addr = record {
  version = 0;
  base_address = base_addr;
  swift5_protocols = no_range;
  swift5_protocol_conformances = no_range;
  swift5_type_metadata = no_range;
  swift5_typeref = no_range;
  swift5_reflstr = no_range;
  swift5_fieldmd = no_range;
  swift5_assocty = no_range;
  swift5_replace = no_range;
  swift5_replac2 = no_range;
  swift5_builtin = no_range;
  swift5_capture = no_range;
  swift5_mpenum = no_range;
  swift5_accessible = no_range;
  swift5_runtime_attributes = no_range;
}

-- The match on a section's name: what it changes, if the runtime is to know the section.
unfoldable pub put_section : Bytes → SectionRange → MetadataSections → Option MetadataSections
put_section name range sections =
    if name == codes "__swift5_protos"
    then some (record sections { swift5_protocols = range })
    else if name == codes "__swift5_proto"
    then some (record sections { swift5_protocol_conformances = range })
    else if name == codes "__swift5_types"
    then some (record sections { swift5_type_metadata = range })
    else if name == codes "__swift5_typeref"
    then some (record sections { swift5_typeref = range })
    else if name == codes "__swift5_reflstr"
    then some (record sections { swift5_reflstr = range })
    else if name == codes "__swift5_fieldmd"
    then some (record sections { swift5_fieldmd = range })
    else if name == codes "__swift5_assocty"
    then some (record sections { swift5_assocty = range })
    else if name == codes "__swift5_builtin"
    then some (record sections { swift5_builtin = range })
    else if name == codes "__swift5_capture"
    then some (record sections { swift5_capture = range })
    else if name == codes "__swift5_mpenum"
    then some (record sections { swift5_mpenum = range })
    else if name == codes "__swift_as_entry"
    then some (record sections { swift5_accessible = range })
    else none

-- The loop over the sections of a segment, with the number of those that were found.
unfoldable pub collect : ℕ → List (Option Section) → MetadataSections × ℕ → MetadataSections × ℕ
collect slide [] s = s
collect slide (none ∷ rest) s = collect slide rest s
collect slide (some section ∷ rest) s =
    let range : SectionRange = record {
      start = u64 (Section.addr section + slide);
      length = Section.size section;
    } in
    collect slide rest (elim (put_section (Section.section_name section) range s.0) [
      | none ↦ s
      | some sections ↦ (sections, s.1 + 1)
    ])

unfoldable pub collect_all :
    ℕ → List (List (Option Section)) → MetadataSections × ℕ → MetadataSections × ℕ
collect_all slide [] s = s
collect_all slide (sections ∷ segments) s = collect_all slide segments (collect slide sections s)

-- The base address, 0 where no segment is called __TEXT, and the sections by segment.
pub record SwiftImage : Type 0 where
  pub text_vmaddr : Option ℕ
  pub sections : List (List (Option Section))

-- What `swift_addNewDSOImage` is called with, if it is.
unfoldable pub register_swift_sections :
    (is_loaded : Bool) → Option SwiftImage → ℕ → Option MetadataSections
register_swift_sections false image slide = none
register_swift_sections true none slide = none
register_swift_sections true (some image) slide =
    let macho_base : ℕ = elim (SwiftImage.text_vmaddr image) [ none ↦ 0 | some a ↦ a ] in
    let r =
      collect_all slide (SwiftImage.sections image)
        (empty_sections (u64 (macho_base + slide)), 0) in
    if r.1 == 0 then none else some r.0
