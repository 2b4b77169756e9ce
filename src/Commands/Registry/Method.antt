-- ===== src/Commands/Registry/Method.antt =====
-- The classes that src/jdwpy/commands/method.py registers.
use jdwpy.Prelude.{All, List, [], some, ◌∷◌}
use jdwpy.Constants.ErrorCode.{JdwpErrorCode}
use jdwpy.Commands.Method.Lines.{
  BytecodesCommand, BytecodesResponse, IsBytecodesCommand, IsBytecodesResponse, IsIsObsoleteCommand,
  IsLineTableCommand, IsLineTableResponse, IsObsoleteCommand, IsObsoleteResponse, LineTableCommand,
  LineTableResponse, RoundTrip-bytecodes_command, RoundTrip-bytecodes_response,
  RoundTrip-is_obsolete_command, RoundTrip-is_obsolete_response, RoundTrip-line_table_command,
  RoundTrip-line_table_response, deserialize_bytecodes_command, deserialize_bytecodes_response,
  deserialize_is_obsolete_command, deserialize_is_obsolete_response, deserialize_line_table_command,
  deserialize_line_table_response, serialize_bytecodes_command, serialize_bytecodes_response,
  serialize_is_obsolete_command, serialize_is_obsolete_response, serialize_line_table_command,
  serialize_line_table_response,
}
use jdwpy.Commands.Method.Variables.{
  IsVariableTableCommand, IsVariableTableResponse, IsVariableTableWithGenericCommand,
  IsVariableTableWithGenericResponse, RoundTrip-variable_table_command,
  RoundTrip-variable_table_response, RoundTrip-variable_table_with_generic_command,
  RoundTrip-variable_table_with_generic_response, VariableTableCommand, VariableTableResponse,
  VariableTableWithGenericCommand, VariableTableWithGenericResponse,
  deserialize_variable_table_command, deserialize_variable_table_response,
  deserialize_variable_table_with_generic_command, deserialize_variable_table_with_generic_response,
  serialize_variable_table_command, serialize_variable_table_response,
  serialize_variable_table_with_generic_command, serialize_variable_table_with_generic_response,
}
use jdwpy.Commands.Registry.{CommandClass, RoundTrips}

abbrev pub line_table_class : CommandClass
line_table_class = record {
  command_set = 6;
  command = 1;
  allowed_errors =
      JdwpErrorCode.none ∷ JdwpErrorCode.invalid_class ∷ JdwpErrorCode.invalid_methodid
      ∷ JdwpErrorCode.invalid_object ∷ JdwpErrorCode.vm_dead ∷ [];
  Instance = LineTableCommand;
  serialize = serialize_line_table_command;
  deserialize = deserialize_line_table_command;
  IsWritable = IsLineTableCommand;
  response = some (record {
    Instance = LineTableResponse;
    serialize = serialize_line_table_response;
    deserialize = deserialize_line_table_response;
    IsWritable = IsLineTableResponse;
  });
}

abbrev pub variable_table_class : CommandClass
variable_table_class = record {
  command_set = 6;
  command = 2;
  allowed_errors =
      JdwpErrorCode.none ∷ JdwpErrorCode.absent_information ∷ JdwpErrorCode.invalid_class
      ∷ JdwpErrorCode.invalid_methodid ∷ JdwpErrorCode.invalid_object ∷ JdwpErrorCode.vm_dead ∷ [];
  Instance = VariableTableCommand;
  serialize = serialize_variable_table_command;
  deserialize = deserialize_variable_table_command;
  IsWritable = IsVariableTableCommand;
  response = some (record {
    Instance = VariableTableResponse;
    serialize = serialize_variable_table_response;
    deserialize = deserialize_variable_table_response;
    IsWritable = IsVariableTableResponse;
  });
}

abbrev pub bytecodes_class : CommandClass
bytecodes_class = record {
  command_set = 6;
  command = 3;
  allowed_errors =
      JdwpErrorCode.none ∷ JdwpErrorCode.invalid_class ∷ JdwpErrorCode.invalid_methodid
      ∷ JdwpErrorCode.invalid_object ∷ JdwpErrorCode.not_implemented ∷ JdwpErrorCode.vm_dead ∷ [];
  Instance = BytecodesCommand;
  serialize = serialize_bytecodes_command;
  deserialize = deserialize_bytecodes_command;
  IsWritable = IsBytecodesCommand;
  response = some (record {
    Instance = BytecodesResponse;
    serialize = serialize_bytecodes_response;
    deserialize = deserialize_bytecodes_response;
    IsWritable = IsBytecodesResponse;
  });
}

abbrev pub is_obsolete_class : CommandClass
is_obsolete_class = record {
  command_set = 6;
  command = 4;
  allowed_errors =
      JdwpErrorCode.none ∷ JdwpErrorCode.invalid_class ∷ JdwpErrorCode.invalid_methodid
      ∷ JdwpErrorCode.invalid_object ∷ JdwpErrorCode.not_implemented ∷ JdwpErrorCode.vm_dead ∷ [];
  Instance = IsObsoleteCommand;
  serialize = serialize_is_obsolete_command;
  deserialize = deserialize_is_obsolete_command;
  IsWritable = IsIsObsoleteCommand;
  response = some (record {
    Instance = IsObsoleteResponse;
    serialize = serialize_is_obsolete_response;
    deserialize = deserialize_is_obsolete_response;
    IsWritable = λ p s c. Unit {0};
  });
}

abbrev pub variable_table_with_generic_class : CommandClass
variable_table_with_generic_class = record {
  command_set = 6;
  command = 5;
  allowed_errors =
      JdwpErrorCode.none ∷ JdwpErrorCode.absent_information ∷ JdwpErrorCode.invalid_class
      ∷ JdwpErrorCode.invalid_methodid ∷ JdwpErrorCode.invalid_object ∷ JdwpErrorCode.vm_dead ∷ [];
  Instance = VariableTableWithGenericCommand;
  serialize = serialize_variable_table_with_generic_command;
  deserialize = deserialize_variable_table_with_generic_command;
  IsWritable = IsVariableTableWithGenericCommand;
  response = some (record {
    Instance = VariableTableWithGenericResponse;
    serialize = serialize_variable_table_with_generic_response;
    deserialize = deserialize_variable_table_with_generic_response;
    IsWritable = IsVariableTableWithGenericResponse;
  });
}

abbrev pub method_classes : List CommandClass
method_classes =
    line_table_class ∷ variable_table_class ∷ bytecodes_class ∷ is_obsolete_class
    ∷ variable_table_with_generic_class ∷ []

pub method_classes-RoundTrips : All RoundTrips method_classes
method_classes-RoundTrips = (
  (λ _ p s c h. RoundTrip-line_table_command h, λ p s c h. RoundTrip-line_table_response h),
  (
    (
      λ _ p s c h. RoundTrip-variable_table_command h,
      λ p s c h. RoundTrip-variable_table_response h,
    ),
    (
      (λ _ p s c h. RoundTrip-bytecodes_command h, λ p s c h. RoundTrip-bytecodes_response h),
      (
        (λ _ p s c h. RoundTrip-is_obsolete_command h, λ p s c h. RoundTrip-is_obsolete_response),
        (
          (
            λ _ p s c h. RoundTrip-variable_table_with_generic_command h,
            λ p s c h. RoundTrip-variable_table_with_generic_response h,
          ),
          tt,
        ),
      ),
    ),
  ),
)
