-- ===== src/Encoding/Table.antt =====
-- The table of lib/whatwg/encoding.js.
use zero_archive.Prelude.{[], ◌∷◌, codes, Text, List, String}

-- A label and its encoding.
abbrev pub Row : Type 0
Row = Text × Text

abbrev row : String → String → Row
row label encoding = (codes label, codes encoding)

unfoldable pub encodings : List Row
encodings =
    row "unicode-1-1-utf-8" "utf-8"
    ∷ row "utf8" "utf-8"
    ∷ row "utf-8" "utf-8"
    ∷ row "866" "ibm866"
    ∷ row "cp866" "ibm866"
    ∷ row "csibm866" "ibm866"
    ∷ row "ibm866" "ibm866"
    ∷ row "csisolatin2" "iso-8859-2"
    ∷ row "iso-8859-2" "iso-8859-2"
    ∷ row "iso-ir-101" "iso-8859-2"
    ∷ row "iso8859-2" "iso-8859-2"
    ∷ row "iso88592" "iso-8859-2"
    ∷ row "iso_8859-2" "iso-8859-2"
    ∷ row "iso_8859-2:1987" "iso-8859-2"
    ∷ row "l2" "iso-8859-2"
    ∷ row "latin2" "iso-8859-2"
    ∷ row "csisolatin3" "iso-8859-3"
    ∷ row "iso-8859-3" "iso-8859-3"
    ∷ row "iso-ir-109" "iso-8859-3"
    ∷ row "iso8859-3" "iso-8859-3"
    ∷ row "iso88593" "iso-8859-3"
    ∷ row "iso_8859-3" "iso-8859-3"
    ∷ row "iso_8859-3:1988" "iso-8859-3"
    ∷ row "l3" "iso-8859-3"
    ∷ row "latin3" "iso-8859-3"
    ∷ row "csisolatin4" "iso-8859-4"
    ∷ row "iso-8859-4" "iso-8859-4"
    ∷ row "iso-ir-110" "iso-8859-4"
    ∷ row "iso8859-4" "iso-8859-4"
    ∷ row "iso88594" "iso-8859-4"
    ∷ row "iso_8859-4" "iso-8859-4"
    ∷ row "iso_8859-4:1988" "iso-8859-4"
    ∷ row "l4" "iso-8859-4"
    ∷ row "latin4" "iso-8859-4"
    ∷ row "csisolatincyrillic" "iso-8859-5"
    ∷ row "cyrillic" "iso-8859-5"
    ∷ row "iso-8859-5" "iso-8859-5"
    ∷ row "iso-ir-144" "iso-8859-5"
    ∷ row "iso8859-5" "iso-8859-5"
    ∷ row "iso88595" "iso-8859-5"
    ∷ row "iso_8859-5" "iso-8859-5"
    ∷ row "iso_8859-5:1988" "iso-8859-5"
    ∷ row "arabic" "iso-8859-6"
    ∷ row "asmo-708" "iso-8859-6"
    ∷ row "csiso88596e" "iso-8859-6"
    ∷ row "csiso88596i" "iso-8859-6"
    ∷ row "csisolatinarabic" "iso-8859-6"
    ∷ row "ecma-114" "iso-8859-6"
    ∷ row "iso-8859-6" "iso-8859-6"
    ∷ row "iso-8859-6-e" "iso-8859-6"
    ∷ row "iso-8859-6-i" "iso-8859-6"
    ∷ row "iso-ir-127" "iso-8859-6"
    ∷ row "iso8859-6" "iso-8859-6"
    ∷ row "iso88596" "iso-8859-6"
    ∷ row "iso_8859-6" "iso-8859-6"
    ∷ row "iso_8859-6:1987" "iso-8859-6"
    ∷ row "csisolatingreek" "iso-8859-7"
    ∷ row "ecma-118" "iso-8859-7"
    ∷ row "elot_928" "iso-8859-7"
    ∷ row "greek" "iso-8859-7"
    ∷ row "greek8" "iso-8859-7"
    ∷ row "iso-8859-7" "iso-8859-7"
    ∷ row "iso-ir-126" "iso-8859-7"
    ∷ row "iso8859-7" "iso-8859-7"
    ∷ row "iso88597" "iso-8859-7"
    ∷ row "iso_8859-7" "iso-8859-7"
    ∷ row "iso_8859-7:1987" "iso-8859-7"
    ∷ row "sun_eu_greek" "iso-8859-7"
    ∷ row "csiso88598e" "iso-8859-8"
    ∷ row "csisolatinhebrew" "iso-8859-8"
    ∷ row "hebrew" "iso-8859-8"
    ∷ row "iso-8859-8" "iso-8859-8"
    ∷ row "iso-8859-8-e" "iso-8859-8"
    ∷ row "iso-ir-138" "iso-8859-8"
    ∷ row "iso8859-8" "iso-8859-8"
    ∷ row "iso88598" "iso-8859-8"
    ∷ row "iso_8859-8" "iso-8859-8"
    ∷ row "iso_8859-8:1988" "iso-8859-8"
    ∷ row "visual" "iso-8859-8"
    ∷ row "csiso88598i" "iso-8859-8-i"
    ∷ row "iso-8859-8-i" "iso-8859-8-i"
    ∷ row "logical" "iso-8859-8-i"
    ∷ row "csisolatin6" "iso-8859-10"
    ∷ row "iso-8859-10" "iso-8859-10"
    ∷ row "iso-ir-157" "iso-8859-10"
    ∷ row "iso8859-10" "iso-8859-10"
    ∷ row "iso885910" "iso-8859-10"
    ∷ row "l6" "iso-8859-10"
    ∷ row "latin6" "iso-8859-10"
    ∷ row "iso-8859-13" "iso-8859-13"
    ∷ row "iso8859-13" "iso-8859-13"
    ∷ row "iso885913" "iso-8859-13"
    ∷ row "iso-8859-14" "iso-8859-14"
    ∷ row "iso8859-14" "iso-8859-14"
    ∷ row "iso885914" "iso-8859-14"
    ∷ row "csisolatin9" "iso-8859-15"
    ∷ row "iso-8859-15" "iso-8859-15"
    ∷ row "iso8859-15" "iso-8859-15"
    ∷ row "iso885915" "iso-8859-15"
    ∷ row "iso_8859-15" "iso-8859-15"
    ∷ row "l9" "iso-8859-15"
    ∷ row "cskoi8r" "koi8-r"
    ∷ row "koi" "koi8-r"
    ∷ row "koi8" "koi8-r"
    ∷ row "koi8-r" "koi8-r"
    ∷ row "koi8_r" "koi8-r"
    ∷ row "koi8-ru" "koi8-u"
    ∷ row "koi8-u" "koi8-u"
    ∷ row "csmacintosh" "macintosh"
    ∷ row "mac" "macintosh"
    ∷ row "macintosh" "macintosh"
    ∷ row "x-mac-roman" "macintosh"
    ∷ row "dos-874" "windows-874"
    ∷ row "iso-8859-11" "windows-874"
    ∷ row "iso8859-11" "windows-874"
    ∷ row "iso885911" "windows-874"
    ∷ row "tis-620" "windows-874"
    ∷ row "windows-874" "windows-874"
    ∷ row "cp1250" "windows-1250"
    ∷ row "windows-1250" "windows-1250"
    ∷ row "x-cp1250" "windows-1250"
    ∷ row "cp1251" "windows-1251"
    ∷ row "windows-1251" "windows-1251"
    ∷ row "x-cp1251" "windows-1251"
    ∷ row "ansi_x3.4-1968" "windows-1252"
    ∷ row "ascii" "windows-1252"
    ∷ row "cp1252" "windows-1252"
    ∷ row "cp819" "windows-1252"
    ∷ row "csisolatin1" "windows-1252"
    ∷ row "ibm819" "windows-1252"
    ∷ row "iso-8859-1" "windows-1252"
    ∷ row "iso-ir-100" "windows-1252"
    ∷ row "iso8859-1" "windows-1252"
    ∷ row "iso88591" "windows-1252"
    ∷ row "iso_8859-1" "windows-1252"
    ∷ row "iso_8859-1:1987" "windows-1252"
    ∷ row "l1" "windows-1252"
    ∷ row "latin1" "windows-1252"
    ∷ row "us-ascii" "windows-1252"
    ∷ row "windows-1252" "windows-1252"
    ∷ row "x-cp1252" "windows-1252"
    ∷ row "cp1253" "windows-1253"
    ∷ row "windows-1253" "windows-1253"
    ∷ row "x-cp1253" "windows-1253"
    ∷ row "cp1254" "windows-1254"
    ∷ row "csisolatin5" "windows-1254"
    ∷ row "iso-8859-9" "windows-1254"
    ∷ row "iso-ir-148" "windows-1254"
    ∷ row "iso8859-9" "windows-1254"
    ∷ row "iso88599" "windows-1254"
    ∷ row "iso_8859-9" "windows-1254"
    ∷ row "iso_8859-9:1989" "windows-1254"
    ∷ row "l5" "windows-1254"
    ∷ row "latin5" "windows-1254"
    ∷ row "windows-1254" "windows-1254"
    ∷ row "x-cp1254" "windows-1254"
    ∷ row "cp1255" "windows-1255"
    ∷ row "windows-1255" "windows-1255"
    ∷ row "x-cp1255" "windows-1255"
    ∷ row "cp1256" "windows-1256"
    ∷ row "windows-1256" "windows-1256"
    ∷ row "x-cp1256" "windows-1256"
    ∷ row "cp1257" "windows-1257"
    ∷ row "windows-1257" "windows-1257"
    ∷ row "x-cp1257" "windows-1257"
    ∷ row "cp1258" "windows-1258"
    ∷ row "windows-1258" "windows-1258"
    ∷ row "x-cp1258" "windows-1258"
    ∷ row "x-mac-cyrillic" "x-mac-cyrillic"
    ∷ row "x-mac-ukrainian" "x-mac-cyrillic"
    ∷ row "chinese" "gbk"
    ∷ row "csgb2312" "gbk"
    ∷ row "csiso58gb231280" "gbk"
    ∷ row "gb2312" "gbk"
    ∷ row "gb_2312" "gbk"
    ∷ row "gb_2312-80" "gbk"
    ∷ row "gbk" "gbk"
    ∷ row "iso-ir-58" "gbk"
    ∷ row "x-gbk" "gbk"
    ∷ row "gb18030" "gb18030"
    ∷ row "big5" "big5"
    ∷ row "big5-hkscs" "big5"
    ∷ row "cn-big5" "big5"
    ∷ row "csbig5" "big5"
    ∷ row "x-x-big5" "big5"
    ∷ row "cseucpkdfmtjapanese" "euc-jp"
    ∷ row "euc-jp" "euc-jp"
    ∷ row "x-euc-jp" "euc-jp"
    ∷ row "csiso2022jp" "iso-2022-jp"
    ∷ row "iso-2022-jp" "iso-2022-jp"
    ∷ row "csshiftjis" "shift_jis"
    ∷ row "ms932" "shift_jis"
    ∷ row "ms_kanji" "shift_jis"
    ∷ row "shift-jis" "shift_jis"
    ∷ row "shift_jis" "shift_jis"
    ∷ row "sjis" "shift_jis"
    ∷ row "windows-31j" "shift_jis"
    ∷ row "x-sjis" "shift_jis"
    ∷ row "cseuckr" "euc-kr"
    ∷ row "csksc56011987" "euc-kr"
    ∷ row "euc-kr" "euc-kr"
    ∷ row "iso-ir-149" "euc-kr"
    ∷ row "korean" "euc-kr"
    ∷ row "ks_c_5601-1987" "euc-kr"
    ∷ row "ks_c_5601-1989" "euc-kr"
    ∷ row "ksc5601" "euc-kr"
    ∷ row "ksc_5601" "euc-kr"
    ∷ row "windows-949" "euc-kr"
    ∷ row "utf-16be" "utf-16be"
    ∷ row "utf-16le" "utf-16le"
    ∷ row "utf-16" "utf-16le"
    ∷ []
