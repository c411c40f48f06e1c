-- ===== src/Dns/Message.antt =====
-- internal/dns/constants.go and internal/dns/message.go, and the errors of the package.
-- A `uint16` or `uint32` field is a number; the lemmas that need its range say so.
use go_network_lab.Base.{ℕ, ◌<◌, List, Bytes, u16_mod}

abbrev pub type_a : ℕ
type_a = 1

abbrev pub type_aaaa : ℕ
type_aaaa = 28

abbrev pub class_in : ℕ
class_in = 1

abbrev pub flag_qr : ℕ
flag_qr = 0x8000

abbrev pub flag_rd : ℕ
flag_rd = 0x100

abbrev pub flag_tc : ℕ
flag_tc = 0x200

abbrev pub flag_ra : ℕ
flag_ra = 0x80

abbrev pub rcode_mask : ℕ
rcode_mask = 0x000F

pub record Header : Type 0 where
  pub id : ℕ
  pub flags : ℕ
  pub qd_count : ℕ
  pub an_count : ℕ
  pub ns_count : ℕ
  pub ar_count : ℕ

pub record Question : Type 0 where
  pub name : Bytes
  pub qtype : ℕ
  pub qclass : ℕ

pub record ResourceRecord : Type 0 where
  pub name : Bytes
  pub rtype : ℕ
  pub rclass : ℕ
  pub ttl : ℕ
  pub rdata_len : ℕ
  pub rdata : Bytes

pub record Message : Type 0 where
  pub header : Header
  pub questions : List Question
  pub answers : List ResourceRecord
  pub authority : List ResourceRecord
  pub additional : List ResourceRecord

-- Each field fits the `uint16` that it is.
pub record HeaderFits (h : Header) : Type 0 where
  pub id_fits : h.id < u16_mod
  pub flags_fits : h.flags < u16_mod
  pub qd_fits : h.qd_count < u16_mod
  pub an_fits : h.an_count < u16_mod
  pub ns_fits : h.ns_count < u16_mod
  pub ar_fits : h.ar_count < u16_mod

pub record QuestionFits (q : Question) : Type 0 where
  pub qtype_fits : q.qtype < u16_mod
  pub qclass_fits : q.qclass < u16_mod

-- The prefixes that `fmt.Errorf("…: %w", err)` puts in front of an error.
pub data Context : Type 0 where
  encode_question_name decode_question_name decode_record_name decode_header_context : Context
  decode_answers decode_authority decode_additional : Context
  decode_question_at record_at : ℕ → Context

pub data Error : Type 0 where
  wrapped : Context → Error → Error
  -- encode.go
  empty_name empty_label encoded_name_too_long : Error
  label_too_long : Bytes → Error
  -- name.go
  name_out_of_bounds truncated_pointer too_many_jumps label_out_of_bounds name_too_long : Error
  invalid_label_length : ℕ → Error
  -- decode.go, question.go, record.go
  short_header truncated_qtype truncated_qclass : Error
  truncated_type truncated_class truncated_ttl truncated_rdlength truncated_rdata : Error
