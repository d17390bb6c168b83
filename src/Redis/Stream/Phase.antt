-- ===== src/Redis/Stream/Phase.antt =====
-- Where a parser stands in a stream of serialized commands, as an independent description: what is
-- left of the stream, the commands that it still spells, and the fields of the parser there.
use pink.Base.{ℕ, suc, ◌<◌, ◌^◌, List, [], ◌∷◌, ◌++◌, some, length, ℤ, pos, negsuc}
use pink.Redis.Chars.{Bytes, Argv}
use pink.Redis.State.{
  ParserStatus, parser_ok, undecided, req_multibulk, ReqType, request, Settings, Parser,
}
use pink.Redis.Serialize.{bulks, redis_format_command_argv}
use pink.Redis.Stream.Lines.{line, body}

-- What the callbacks of a recording parser have been given, the latest last.
pub record Log : Type 0 where
  pub dealt : List Argv
  pub completed : List (List Argv)

-- Callbacks that record what they are given, and accept it.
abbrev pub recording : Settings Log
recording = record {
  deal_message = some (λ c argv. (record c { dealt = c.dealt ++ argv ∷ [] }, pos 0));
  complete = some (λ c argvs. (record c { completed = c.completed ++ argvs ∷ [] }, pos 0));
}

-- Between commands, behind the '*' of a command, at the line of the bulk `a`, in the bulk `a`; with
-- the words of the command that were read, and those after `a`.
pub data Phase : Type 0 where
  boundary : Phase
  header : Argv → Phase
  bulk_line bulk_body : Argv → Bytes → Argv → Phase

-- A pipeline of commands.
abbrev pub wire : List Argv → Bytes
wire [] = []
wire (c ∷ cs) = redis_format_command_argv c ++ wire cs

abbrev pub stream : Phase → List Argv → Bytes
stream boundary cs = wire cs
stream (header c) cs = redis_format_command_argv c ++ wire cs
stream (bulk_line argv a args) cs = line b'$' (length a) (body a (bulks args ++ wire cs))
stream (bulk_body argv a args) cs = body a (bulks args ++ wire cs)

abbrev pub pending : Phase → List Argv → List Argv
pending boundary cs = cs
pending (header c) cs = c ∷ cs
pending (bulk_line argv a args) cs = (argv ++ a ∷ args) ∷ cs
pending (bulk_body argv a args) cs = (argv ++ a ∷ args) ∷ cs

abbrev type_in : Phase → ReqType
type_in boundary = undecided
type_in _ = req_multibulk

abbrev multibulk_len_in : Phase → ℤ
multibulk_len_in (bulk_line argv a args) = pos (suc (length args))
multibulk_len_in (bulk_body argv a args) = pos (suc (length args))
multibulk_len_in _ = pos 0

abbrev bulk_len_in : Phase → ℤ
bulk_len_in (bulk_body argv a args) = pos (length a)
bulk_len_in _ = negsuc 0

abbrev argv_in : Phase → Argv
argv_in (bulk_line argv a args) = argv
argv_in (bulk_body argv a args) = argv
argv_in _ = []

-- The rest of a recording parser's state: the commands since the last `Complete`, and the log.
pub record Frame : Type 0 where
  pub argvs : List Argv
  pub log : Log
  pub size : ℕ

-- The parser in a phase, with what it has put aside and what is unread.
abbrev pub parser_at : Frame → ParserStatus → Phase → Bytes → Bytes → Parser Log
parser_at f s ph h t = record {
  settings = recording;
  status_code = s;
  error_code = parser_ok;
  redis_type = type_in ph;
  redis_parser_type = request;
  multibulk_len = multibulk_len_in ph;
  bulk_len = bulk_len_in ph;
  half_argv = h;
  argv = argv_in ph;
  argvs = f.argvs;
  length_ = f.size;
  input = t;
  data_ = f.log;
}

-- The parser when the bulks of a command have been read.
abbrev pub parser_full : Frame → ParserStatus → Argv → Bytes → Bytes → Parser Log
parser_full f s argv h t = record {
  settings = recording;
  status_code = s;
  error_code = parser_ok;
  redis_type = req_multibulk;
  redis_parser_type = request;
  multibulk_len = pos 0;
  bulk_len = negsuc 0;
  half_argv = h;
  argv = argv;
  argvs = f.argvs;
  length_ = f.size;
  input = t;
  data_ = f.log;
}

-- Every word's length and every word count fits in a `long`.
abbrev pub FitsLong : Argv → Type 0
FitsLong [] = Unit {0}
FitsLong (a ∷ args) = (length a < 2 ^ 63) × FitsLong args
