-- ===== src/Args.antt =====
-- The argument table: src/args.c, src/include/args.h. It is not finished in the source: no argument is
-- looked at, and the parser of the file name stores nothing. The program does not call it.
use ipfix.Common.{Bool, false, List, [], ◌∷◌, Option, none, some, codes}
use ipfix.Date.{Datetime}
use ipfix.Export.Session.{Code, code_none, code_invalid_arguments}
use ipfix.Text.{Bytes}

-- `nvIPFIX_args_t`
pub record Args : Type 0 where
  pub data_filename : Option Bytes
  pub has_data_filename : Bool
  pub start_ts : Datetime
  pub end_ts : Datetime

-- The member of `nvIPFIX_args_t` that `offset` stands for.
pub data Member : Type 0 where
  data_filename start_ts end_ts : Member

-- `nvIPFIX_ARG_FLAGS`
pub data ArgFlags : Type 0 where
  flag_none flag_mandatory : ArgFlags

-- `nvIPFIX_arg_t`; the parser gets a text and the arguments that it may write to.
pub record Arg : Type 0 where
  pub key : Option Bytes
  pub offset : Member
  pub parse_value : Option (Bytes → Args → Bool × Args)
  pub flags : ArgFlags

unfoldable pub args_parse_data_filename : Bytes → Args → Bool × Args
args_parse_data_filename s value = (false, value)

-- `NVIPFIX_ARG_ITEM_WITH_FLAGS`
abbrev arg_item_with_flags : Option Bytes → Member → (Bytes → Args → Bool × Args) → ArgFlags → Arg
arg_item_with_flags a_key a_field a_parseValue a_flags = record {
  key = a_key;
  offset = a_field;
  parse_value = some a_parseValue;
  flags = a_flags;
}

-- `NVIPFIX_ARG_ITEM`
abbrev arg_item : Option Bytes → Member → (Bytes → Args → Bool × Args) → Arg
arg_item a_key a_field a_parseValue = arg_item_with_flags a_key a_field a_parseValue flag_none

-- The table; the last item has all members 0.
abbrev pub arg_items : List Arg
arg_items =
    arg_item (some (codes "-f")) data_filename args_parse_data_filename
    ∷ arg_item_with_flags none start_ts args_parse_data_filename flag_mandatory
    ∷ arg_item_with_flags none end_ts args_parse_data_filename flag_mandatory
    ∷ record { key = none; offset = data_filename; parse_value = none; flags = flag_none }
    ∷ []

-- The loop over the arguments behind the first, with an empty body.
look_at : List Bytes → Args → Args
look_at [] a_args = a_args
look_at (a ∷ rest) a_args = look_at rest a_args

behind_first : List Bytes → List Bytes
behind_first [] = []
behind_first (name ∷ rest) = rest

-- `nvipfix_args_parse`; `none` is a pointer that is NULL.
unfoldable pub args_parse : Option (List Bytes) → Option Args → Code × Option Args
unfolding look_at behind_first
args_parse none a_args = (code_invalid_arguments, a_args)
args_parse (some a_argv) none = (code_invalid_arguments, none)
args_parse (some a_argv) (some a_args) = (code_none, some (look_at (behind_first a_argv) a_args))
